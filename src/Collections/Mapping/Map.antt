-- ===== src/Collections/Mapping/Map.antt =====
-- mapping.rs and set.rs: a mapping is a finite map, and a set a set, for keys that do not collide.
use casper_contract_kit.Base.{
  ◌≤◌, ◌≡◌, refl, ap, subst, ◌∙◌, true, Option, some, length, ok, pure, bind-ok,
}
use casper_contract_kit.Casper.Codec.{Codec, Lossless}
use casper_contract_kit.Host.{Host, World, NamedKey, IsDocumented}
use casper_contract_kit.Shim.{Dictionary, insert_item}
use casper_contract_kit.NamedKey.Ops.{Holds}
use casper_contract_kit.Collections.DictionaryKey.{DictionaryKey}
use casper_contract_kit.Collections.DictionaryKey.Fixed.{IsFixed}
use casper_contract_kit.Collections.Open.{
  insert_item-same, insert_item-other, IsOpen, get_dict-IsOpen, put_dict-IsOpen,
}
use casper_contract_kit.Collections.Mapping.{insert, get, unit_codec, is_some, set_insert, contains}
use mathlib.Core.Logic.{ite}

-- The mapping under the name is the map `f` on the keys that satisfy `Fits`.
pub record IsMap {K V : Type 0} (host : Host) (keys : DictionaryKey K) (codec : Codec V)
    (Fits : K → Type 0) (nk : NamedKey) (f : K → Option V) (w : World) : Type 0 where
  pub content : Dictionary
  pub open_content : IsOpen host nk content w
  pub items : (k : K) → Fits k → Holds codec (content (keys.dictionary_key k)) (f k)

-- The map with `k` set to `v`.
abbrev pub assign : {K V : Type 0} → Discrete K → K → V → (K → Option V) → K → Option V
assign eq k v f j = ite (eq k j) (some v) (f j)

module _ (host : Host) (doc : IsDocumented host) {K V : Type 0} (eq : Discrete K)
    (keys : DictionaryKey K) (codec : Codec V) (Fits : K → Type 0) (fixed : IsFixed keys Fits)
    (nk : NamedKey)
    (short : (k : K) → Fits k → length (keys.dictionary_key k) ≤ host.item_key_max) where
  -- Over a host that reads dictionaries as documented, for keys that are short and do not collide,
  -- `get` on a mapping that is the map `f` answers `f`, and leaves the mapping as it is.
  pub get-IsMap :
      (f : K → Option V) (k : K) (w : World)
      → IsMap host keys codec Fits nk f w
      → Fits k
      → ((get host keys codec nk k w).0 ≡ ok (f k))
        × IsMap host keys codec Fits nk f (get host keys codec nk k w).1
  unfolding get
  get-IsMap f k w m fits =
      let (value, after) =
        get_dict-IsOpen host doc nk codec m.content w (keys.dictionary_key k) (f k) m.open_content
          (short k fits) (m.items k fits) in
      (value, record { content = m.content; open_content = after; items = m.items })

  -- Over a host that reads dictionaries as documented, for keys that are short and do not collide,
  -- `insert` of a value with a lossless serialization ends without an error and changes the map
  -- that the mapping is at its key, and at no other key.
  pub insert-IsMap :
      (f : K → Option V) (k : K) (v : V) (w : World)
      → IsMap host keys codec Fits nk f w
      → Fits k
      → Lossless codec v
      → ((insert host keys codec nk k v w).0 ≡ ok tt)
        × IsMap host keys codec Fits nk (assign eq k v f) (insert host keys codec nk k v w).1
  unfolding insert
  insert-IsMap f k v w m fits lossless =
      let (value, after) =
        put_dict-IsOpen host doc nk codec m.content w (keys.dictionary_key k) v m.open_content
          (short k fits) in
      (
        value,
        record {
          content = insert_item (keys.dictionary_key k) (codec.to_bytes v) m.content;
          open_content = after;
          items = assigned;
        },
      )
    where
      assigned :
          (j : K)
          → Fits j
          → Holds codec
              (insert_item
                (keys.dictionary_key k)
                (codec.to_bytes v)
                m.content
                (keys.dictionary_key j))
              (assign eq k v f j)
      assigned j fits_j = by_cases (eq k j)
        where
          by_cases :
              (d : Dec (k ≡ j))
              → Holds codec
                  (insert_item
                    (keys.dictionary_key k)
                    (codec.to_bytes v)
                    m.content
                    (keys.dictionary_key j))
                  (ite d (some v) (f j))
          by_cases (yes e) =
              subst
                (λ i.
                  Holds codec
                    (insert_item (keys.dictionary_key k) (codec.to_bytes v) m.content
                      (keys.dictionary_key i))
                    (some v))
                e (rw (insert_item-same (keys.dictionary_key k)) (lossless, λ e. cc))
          by_cases (no n) =
              rw
                (insert_item-other (keys.dictionary_key k) (keys.dictionary_key j)
                  (codec.to_bytes v) m.content (λ e. n (fixed.injective k j fits fits_j e)))
                (m.items j fits_j)

module _ (host : Host) (doc : IsDocumented host) {K : Type 0} (eq : Discrete K)
    (keys : DictionaryKey K) (Fits : K → Type 0) (fixed : IsFixed keys Fits) (nk : NamedKey)
    (short : (k : K) → Fits k → length (keys.dictionary_key k) ≤ host.item_key_max) where
  -- Over a host that reads dictionaries as documented, for keys that are short and do not collide,
  -- a set contains the key that was inserted, and of the other keys those that it contained
  -- before.
  pub contains-set_insert :
      (f : K → Option (Unit {0})) (k j : K) (w : World)
      → IsMap host keys unit_codec Fits nk f w
      → Fits k
      → Fits j
      → ((set_insert host keys nk k w).0 ≡ ok tt)
        × ((contains host keys nk j (set_insert host keys nk k w).1).0
            ≡ ok (ite (eq k j) true (is_some (f j))))
  unfolding set_insert contains
  contains-set_insert f k j w m fits fits_j =
      let (done, m1) =
        insert-IsMap host doc eq keys unit_codec Fits fixed nk short f k tt w m fits refl in
      let w1 = (insert host keys unit_codec nk k tt w).1 in
      let (value, _) =
        get-IsMap host doc eq keys unit_codec Fits fixed nk short (assign eq k tt f) j w1 m1
          fits_j in
      (
        done,
        ap (λ r. r.0) (bind-ok (get host keys unit_codec nk j) (λ v. pure (is_some v)) w1 value)
            ∙ ap ok (by_cases (eq k j)),
      )
    where
      by_cases : (d : Dec (k ≡ j)) → is_some (ite d (some tt) (f j)) ≡ ite d true (is_some (f j))
      by_cases (yes e) = refl
      by_cases (no n) = refl
