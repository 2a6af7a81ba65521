-- ===== src/NamedKey/Ops.antt =====
-- named_key.rs: what the operations of a `NamedKey` return and change, while its cache is coherent.
use casper_contract_kit.Base.{
  ℕ, ◌≤◌, ◌≡◌, ◌≢◌, refl, sym, ap, ◌∙◌, Bytes, Option, none, some, length, Outcome, Exec, ok, pure,
  ok_or, bind-ok, arith,
}
use casper_contract_kit.Base.{◌>>=◌}
use casper_contract_kit.Casper.{Key, ApiError, cl_value, into_uref}
use casper_contract_kit.Casper.Codec.{Codec}
use casper_contract_kit.Shim.{Env, Dictionary, casper_read_value, casper_read_host_buffer}
use casper_contract_kit.Host.{Host, World, NamedKey, IsDocumented, IsCoherent, SameHost}
use casper_contract_kit.Utils.{
  dictionary_get_bytes, read_key, read_host_buffer, found_value, buffered, deserialize,
}
use casper_contract_kit.Utils.Laws.{
  dictionary_get_bytes_value, dictionary_get_bytes_same, dictionary_get_bytes_cells,
}
use casper_contract_kit.NamedKey.{
  resolve_key, resolve_uref, decode_item, read_found, require_key, require_uref, get, read,
  get_dict,
}
use casper_contract_kit.NamedKey.Cache.{Reads, SameHost-refl, resolve_key-Reads}

pub SameHost-trans : {a b c : Env} → SameHost a b → SameHost b c → SameHost a c
SameHost-trans p q = ground arith

module _ (host : Host) {X E B : Type 0} where
  carry-IsCoherent :
      {p q : Outcome X E B × World} → p ≡ q → IsCoherent host p.1 → IsCoherent host q.1
  carry-IsCoherent e h = rw e at h

  carry_same :
      (w : World) {p q : Outcome X E B × World}
      → p ≡ q
      → SameHost w.env p.1.env
      → SameHost w.env q.1.env
  carry_same w e h = rw e at h

module _ (host : Host) {X E A B : Type 0} where
  -- A chain of reads reads.
  pub Reads-bind :
      (m : Exec World X E A) (f : A → Exec World X E B) (w : World) {a : A} {b : B}
      → Reads host w a (m w)
      → ((w' : World) → IsCoherent host w' → SameHost w.env w'.env → Reads host w' b (f a w'))
      → Reads host w b ((m >>= f) w)
  Reads-bind m f w first rest =
      let later = rest (m w).1 first.coherent first.same in
      let step = bind-ok m f w first.value in
      record {
        value = ap (λ p. p.0) step ∙ later.value;
        coherent = carry-IsCoherent host (sym step) later.coherent;
        same = carry_same host w (sym step) (SameHost-trans first.same later.same);
      }

abbrev as_uref : Option Key → Option ℕ
as_uref k = elim k [ none ↦ none | some key ↦ into_uref key ]

module _ (host : Host) where
  -- The cache looks at the named keys only.
  pub IsCoherent-after :
      (w w' : World)
      → IsCoherent host w
      → w'.env.named_keys ≡ w.env.named_keys
      → w'.cells ≡ w.cells
      → IsCoherent host w'
  IsCoherent-after w w' h names cells = record {
    cells = λ nk. rw (cells, names) (h.cells nk);
    keys_fit = rw names h.keys_fit;
  }

module _ (host : Host) where
  Reads-pure :
      {A : Type 0} (a : A) (w : World)
      → IsCoherent host w
      → Reads {X = ApiError} {E = ApiError} host w a (pure a w)
  Reads-pure a w h = record { value = refl; coherent = h; same = SameHost-refl w.env }

  Reads-ok_or :
      {A : Type 0} (o : Option A) {a : A} (x : ApiError) (w : World)
      → o ≡ some a
      → IsCoherent host w
      → Reads {X = ApiError} {E = ApiError} host w a (ok_or o x w)
  Reads-ok_or o x w e h = record {
    value = rw e refl;
    coherent = rw e h;
    same = rw e (SameHost-refl w.env);
  }

  -- A name that stands for a URef gives its address.
  pub require_uref-Reads :
      (nk : NamedKey) (w : World) (seed : ℕ)
      → IsCoherent host w
      → w.env.named_keys nk.name ≡ some (Key.uref seed)
      → Reads {X = ApiError} {E = ApiError} host w seed (require_uref host nk w)
  unfolding require_uref resolve_uref
  require_uref-Reads nk w seed h e =
      Reads-bind host (resolve_uref host nk) (λ u. ok_or u ApiError.missing_key) w
        (Reads-bind host (resolve_key host nk) (λ k. pure (as_uref k)) w
          (resolve_key-Reads host nk w h) (λ w' h' s. Reads-pure _ w' h'))
        (λ w' h' s. Reads-ok_or (as_uref (w.env.named_keys nk.name)) _ w' (ap as_uref e) h')

  pub require_key-Reads :
      (nk : NamedKey) (w : World) (key : Key)
      → IsCoherent host w
      → w.env.named_keys nk.name ≡ some key
      → Reads {X = ApiError} {E = ApiError} host w key (require_key host nk w)
  unfolding require_key
  require_key-Reads nk w key h e =
      Reads-bind host (resolve_key host nk) (λ k. ok_or k ApiError.missing_key) w
        (resolve_key-Reads host nk w h)
        (λ w' h' s. Reads-ok_or (w.env.named_keys nk.name) _ w' e h')

  module _ (doc : IsDocumented host) where
    dictionary_get_bytes-Reads :
        (seed : ℕ) (key : Bytes) (w : World) (d : Dictionary)
        → length key ≤ host.item_key_max
        → w.env.dictionaries seed ≡ some d
        → w.env.host_buffer ≡ none
        → IsCoherent host w
        → Reads {X = ApiError} {E = ApiError} host w (d key) (dictionary_get_bytes host seed key w)
    dictionary_get_bytes-Reads seed key w d small dict clear h =
        let same = dictionary_get_bytes_same host doc seed key w d small dict clear in
        record {
          value = dictionary_get_bytes_value host doc seed key w d small dict clear;
          coherent =
              IsCoherent-after host w _ h same.named_keys
                (dictionary_get_bytes_cells host doc seed key w d small dict clear);
          same = same;
        }

-- A stored value, absent or present, that decodes as `o`.
abbrev pub Holds : {T : Type 0} → Codec T → Option Bytes → Option T → Type 0
Holds c none o = o ≡ none
Holds c (some bytes) o = (c.from_bytes bytes ≡ o) × (o ≢ none)

-- The outcome of a call that leaves the host as `e`, but for the trace.
pub record Writes {X E : Type 0} (host : Host) (e : Env) (r : Outcome X E (Unit {0}) × World)
    : Type 0 where
  pub value : r.0 ≡ ok tt
  pub coherent : IsCoherent host r.1
  pub same : SameHost e r.1.env

module _ (host : Host) {T : Type 0} (codec : Codec T) where
  decode_item-Reads :
      (bytes : Option Bytes) (o : Option T) (w : World)
      → Holds codec bytes o
      → IsCoherent host w
      → Reads {X = ApiError} {E = ApiError} host w o (decode_item host codec bytes w)
  unfolding decode_item
  decode_item-Reads none o w e h = record {
    value = ap ok (sym e);
    coherent = h;
    same = SameHost-refl w.env;
  }
  decode_item-Reads (some bytes) none w (e, present) h = absurd (present refl)
  decode_item-Reads (some bytes) (some value) w (e, present) h =
      Reads-bind host (ok_or (codec.from_bytes bytes) (codec.refusal bytes)) (λ v. pure (some v)) w
        (Reads-ok_or host (codec.from_bytes bytes) _ w e h)
        (λ w' h' s. Reads-pure host (some value) w' h')

  -- `get_dict` decodes the item of the dictionary that the name stands for.
  pub get_dict-Reads :
      IsDocumented host
      → (nk : NamedKey) (key : Bytes) (w : World) (seed : ℕ) (d : Dictionary) (o : Option T)
      → IsCoherent host w
      → w.env.named_keys nk.name ≡ some (Key.uref seed)
      → w.env.dictionaries seed ≡ some d
      → w.env.host_buffer ≡ none
      → length key ≤ host.item_key_max
      → Holds codec (d key) o
      → Reads {X = ApiError} {E = ApiError} host w o (get_dict host codec nk key w)
  unfolding get_dict
  get_dict-Reads doc nk key w seed d o h name dict clear small holds =
      Reads-bind host (require_uref host nk)
        (λ u. dictionary_get_bytes host u key >>= decode_item host codec) w
        (require_uref-Reads host nk w seed h name)
        (λ w' h' s.
          Reads-bind host (dictionary_get_bytes host seed key) (decode_item host codec) w'
            (dictionary_get_bytes-Reads host doc seed key w' d small
              (ap (λ f. f seed) s.dictionaries ∙ dict) (s.host_buffer ∙ clear) h')
            (λ w'' h'' s'. decode_item-Reads (d key) o w'' holds h''))

  -- `read` decodes the value under the key that the name stands for.
  read_key-Reads :
      (key : Key) (w : World) (bytes : Bytes) (value : T)
      → IsCoherent host w
      → w.env.database key ≡ some (cl_value bytes)
      → w.env.host_buffer ≡ none
      → codec.from_bytes bytes ≡ some value
      → Reads {X = ApiError} {E = ApiError} host w (some value) (read_key host codec key w)
  read_key-Reads key w bytes value h stored clear decodes = record {
    value = value_lem;
    coherent = IsCoherent-after host w _ h (same_lem.named_keys) cells_lem;
    same = same_lem;
  }
    where
      value_lem : (read_key host codec key w).0 ≡ ok (some value)
      value_lem =
          unfold read_key casper_read_value found_value buffered deserialize read_host_buffer
            casper_read_host_buffer in
          ground arith

      same_lem : SameHost w.env (read_key host codec key w).1.env
      same_lem =
          unfold read_key casper_read_value found_value buffered deserialize read_host_buffer
            casper_read_host_buffer in
          ground arith

      cells_lem : (read_key host codec key w).1.cells ≡ w.cells
      cells_lem =
          unfold read_key casper_read_value found_value buffered deserialize read_host_buffer
            casper_read_host_buffer in
          ground arith

  pub read-Reads :
      (nk : NamedKey) (key : Key) (w : World) (bytes : Bytes) (value : T)
      → IsCoherent host w
      → w.env.named_keys nk.name ≡ some key
      → w.env.database key ≡ some (cl_value bytes)
      → w.env.host_buffer ≡ none
      → codec.from_bytes bytes ≡ some value
      → Reads {X = ApiError} {E = ApiError} host w (some value) (read host codec nk w)
  unfolding read get
  read-Reads nk key w bytes value h name stored clear decodes =
      Reads-bind host (resolve_key host nk) (read_found host codec) w
        (resolve_key-Reads host nk w h)
        (λ w' h' s.
          let there : w'.env.database key ≡ some (cl_value bytes) =
            ap (λ f. f key) s.database ∙ stored in
          rw name (
            unfold read_found in
            read_key-Reads key w' bytes value h' there (s.host_buffer ∙ clear) decodes))
