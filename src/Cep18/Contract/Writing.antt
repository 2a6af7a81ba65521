-- ===== src/Cep18/Contract/Writing.antt =====
-- What the entry points write to the storage of a contract is what they write to its token.
use casper_contract_kit.Base.{
  ℕ, ◌≡◌, ◌≢◌, refl, ◌⊎◌, inl, inr, Bytes, bytes_eq, bytes_eq_iff, true, false, Bool-cases, Option,
  some, arith,
}
use casper_contract_kit.Casper.{Key, StoredValue, cl_value}
use casper_contract_kit.Casper.Codec.{Codec, Lossless}
use casper_contract_kit.Host.{World, NamedKey}
use casper_contract_kit.Shim.{Dictionary, insert_item, insert_dictionary, insert_value}
use casper_contract_kit.NamedKey.Ops.{Holds}
use casper_contract_kit.NamedKey.Updates.{with_item, with_value}
use casper_contract_kit.Cep18.Contract.View.{HasDictionary, HasValue, decoded, item, value}

module _ {T : Type 0} (codec : Codec T) (seed : ℕ) (key bytes : Bytes) (d : Dictionary)
    (dictionaries : ℕ → Option Dictionary) where
  pub item_same :
      (j : Bytes)
      → key ≡ j
      → item codec seed j (insert_dictionary seed (insert_item key bytes d) dictionaries)
        ≡ codec.from_bytes bytes
  item_same j e = ground (arith, bytes_eq_iff key j)

  pub item_other :
      (j : Bytes)
      → dictionaries seed ≡ some d
      → key ≢ j
      → item codec seed j (insert_dictionary seed (insert_item key bytes d) dictionaries)
        ≡ item codec seed j dictionaries
  item_other j opened e = ground (arith, bytes_eq_iff key j)

  pub item_elsewhere :
      (seed' : ℕ) (j : Bytes)
      → seed ≢ seed'
      → item codec seed' j (insert_dictionary seed (insert_item key bytes d) dictionaries)
        ≡ item codec seed' j dictionaries
  item_elsewhere seed' j apart = ground arith

module _ {T : Type 0} (codec : Codec T) (uref : ℕ) (bytes : Bytes)
    (database : Key → Option StoredValue) where
  pub value_same :
      value codec uref (insert_value (Key.uref uref) (cl_value bytes) database)
      ≡ codec.from_bytes bytes
  value_same = ground arith

  pub value_elsewhere :
      (uref' : ℕ)
      → uref ≢ uref'
      → value codec uref' (insert_value (Key.uref uref) (cl_value bytes) database)
        ≡ value codec uref' database
  value_elsewhere uref' apart = ground arith

module _ {T : Type 0} (codec : Codec T) (nk : NamedKey) (seed : ℕ) (w : World) where
  -- The dictionary that was written to, and one that was not.
  pub written_dictionary :
      (key : Bytes) (v : T) (d : HasDictionary codec nk seed w)
      → Lossless codec v
      → HasDictionary codec nk seed
          (record w { env = with_item seed key (codec.to_bytes v) d.content w.env })
  written_dictionary key v d lossless = record {
    name = d.name;
    content = insert_item key (codec.to_bytes v) d.content;
    opened = ground arith;
    whole = λ j. whole j (Bool-cases (bytes_eq key j));
  }
    where
      whole :
          (j : Bytes)
          → (bytes_eq key j ≡ true) ⊎ (bytes_eq key j ≡ false)
          → Holds codec
              (insert_item key (codec.to_bytes v) d.content j)
              (decoded codec (insert_item key (codec.to_bytes v) d.content j))
      whole j (inl same) = rw same (refl, λ e. cc (lossless))
      whole j (inr other) = rw other (d.whole j)

  pub other_dictionary :
      (seed' : ℕ) (content : Dictionary)
      → seed' ≢ seed
      → HasDictionary codec nk seed w
      → HasDictionary codec nk seed (record w {
        env = record w.env { dictionaries = insert_dictionary seed' content w.env.dictionaries };
      })
  other_dictionary seed' content apart d = record {
    name = d.name;
    content = d.content;
    opened = ground (arith, d.opened);
    whole = d.whole;
  }

module _ {T : Type 0} (codec : Codec T) (nk : NamedKey) (uref : ℕ) (w : World) where
  pub written_value :
      (v : T)
      → HasValue codec nk uref w
      → Lossless codec v
      → HasValue codec nk uref
          (record w { env = with_value (Key.uref uref) (codec.to_bytes v) w.env })
  written_value v h lossless = record {
    name = h.name;
    bytes = codec.to_bytes v;
    stored = ground arith;
    content = v;
    decodes = lossless;
  }

  pub other_value :
      (uref' : ℕ) (bytes : Bytes)
      → uref' ≢ uref
      → HasValue codec nk uref w
      → HasValue codec nk uref (record w { env = with_value (Key.uref uref') bytes w.env })
  other_value uref' bytes apart h = record {
    name = h.name;
    bytes = h.bytes;
    stored = ground (arith, h.stored);
    content = h.content;
    decodes = h.decodes;
  }
