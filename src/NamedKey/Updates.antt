-- ===== src/NamedKey/Updates.antt =====
-- named_key.rs: what `put_dict`, `write` and `set` change.
use casper_contract_kit.Base.{
  ℕ, ◌≤◌, ◌≡◌, refl, sym, ap, ◌∙◌, Bytes, some, length, Outcome, Exec, bind-ok, arith,
}
use casper_contract_kit.Base.{◌>>=◌}
use casper_contract_kit.Casper.{Key, ApiError, cl_value}
use casper_contract_kit.Casper.Codec.{Codec}
use casper_contract_kit.Shim.{
  Env, Dictionary, insert_item, insert_dictionary, insert_value, casper_dictionary_put,
  casper_write,
}
use casper_contract_kit.Host.{Host, World, NamedKey, IsCoherent, SameHost}
use casper_contract_kit.Utils.{dictionary_put_clvalue, write_key}
use casper_contract_kit.NamedKey.{require_key, require_uref, write, put_dict}
use casper_contract_kit.NamedKey.Cache.{Reads}
use casper_contract_kit.NamedKey.Ops.{
  Writes, IsCoherent-after, require_uref-Reads, require_key-Reads,
}

abbrev pub with_item : ℕ → Bytes → Bytes → Dictionary → Env → Env
with_item seed key bytes d e = record e {
  dictionaries = insert_dictionary seed (insert_item key bytes d) e.dictionaries;
}

abbrev pub with_value : Key → Bytes → Env → Env
with_value key bytes e = record e { database = insert_value key (cl_value bytes) e.database }

module _ (host : Host) {A : Type 0} where
  -- A write that follows a read.
  Reads-then :
      (m : Exec World ApiError ApiError A) (f : A → Exec World ApiError ApiError (Unit {0}))
      (w : World) {a : A} {e : Env}
      → Reads host w a (m w)
      → ((w' : World) → IsCoherent host w' → SameHost w.env w'.env → Writes host e (f a w'))
      → Writes host e ((m >>= f) w)
  Reads-then m f w {e = e} first rest =
      let later = rest (m w).1 first.coherent first.same in
      carry (sym (bind-ok m f w first.value)) later
    where
      carry :
          {p q : Outcome ApiError ApiError (Unit {0}) × World}
          → p ≡ q
          → Writes host e p
          → Writes host e q
      carry p h = rw p at h

module _ (host : Host) where
  dictionary_put-Writes :
      (seed : ℕ) (key bytes : Bytes) (d : Dictionary) (w w' : World)
      → length key ≤ host.item_key_max
      → w.env.dictionaries seed ≡ some d
      → IsCoherent host w'
      → SameHost w.env w'.env
      → Writes {X = ApiError} {E = ApiError} host
          (with_item seed key bytes d w.env)
          (dictionary_put_clvalue host seed key bytes w')
  dictionary_put-Writes seed key bytes d w w' small dict h s = record {
    value = unfold dictionary_put_clvalue casper_dictionary_put in ground arith;
    coherent = IsCoherent-after host w' _ h names cells;
    same = same_lem;
  }
    where
      there : w'.env.dictionaries seed ≡ some d
      there = ap (λ f. f seed) s.dictionaries ∙ dict

      names : (dictionary_put_clvalue host seed key bytes w').1.env.named_keys ≡ w'.env.named_keys
      names = unfold dictionary_put_clvalue casper_dictionary_put in ground (arith, there)

      cells : (dictionary_put_clvalue host seed key bytes w').1.cells ≡ w'.cells
      cells = unfold dictionary_put_clvalue casper_dictionary_put in ground (arith, there)

      same_lem :
          SameHost
            (with_item seed key bytes d w.env)
            (dictionary_put_clvalue host seed key bytes w').1.env
      same_lem = unfold dictionary_put_clvalue casper_dictionary_put in ground (arith, there)

  module _ {T : Type 0} (codec : Codec T) where
    -- `put_dict` sets the item, and nothing else that a later call could see.
    pub put_dict-Writes :
        (nk : NamedKey) (key : Bytes) (value : T) (w : World) (seed : ℕ) (d : Dictionary)
        → IsCoherent host w
        → w.env.named_keys nk.name ≡ some (Key.uref seed)
        → w.env.dictionaries seed ≡ some d
        → length key ≤ host.item_key_max
        → Writes {X = ApiError} {E = ApiError} host
            (with_item seed key (codec.to_bytes value) d w.env)
            (put_dict host codec nk key value w)
    unfolding put_dict
    put_dict-Writes nk key value w seed d h name dict small =
        Reads-then host (require_uref host nk)
          (λ u. dictionary_put_clvalue host u key (codec.to_bytes value)) w
          (require_uref-Reads host nk w seed h name)
          (λ w' h' s. dictionary_put-Writes seed key (codec.to_bytes value) d w w' small dict h' s)

    pub write-Writes :
        (nk : NamedKey) (key : Key) (value : T) (w : World)
        → IsCoherent host w
        → w.env.named_keys nk.name ≡ some key
        → Writes {X = ApiError} {E = ApiError} host
            (with_value key (codec.to_bytes value) w.env)
            (write host codec nk value w)
    unfolding write
    write-Writes nk key value w h name =
        Reads-then host (require_key host nk) (λ k. write_key host codec value k) w
          (require_key-Reads host nk w key h name) (λ w' h' s. write_key-Writes w' h' s)
      where
        write_key-Writes :
            (w' : World)
            → IsCoherent host w'
            → SameHost w.env w'.env
            → Writes {X = ApiError} {E = ApiError} host
                (with_value key (codec.to_bytes value) w.env)
                (write_key host codec value key w')
        write_key-Writes w' h' s = record {
          value = unfold write_key casper_write in refl;
          coherent =
              IsCoherent-after host w' _ h' (unfold write_key casper_write in refl)
                (unfold write_key casper_write in refl);
          same = unfold write_key casper_write in ground arith;
        }
