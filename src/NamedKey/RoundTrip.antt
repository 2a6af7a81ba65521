-- ===== src/NamedKey/RoundTrip.antt =====
-- named_key.rs: what is written through a name is read back through it.
use casper_contract_kit.Base.{
  ℕ, ◌≤◌, ◌≡◌, ◌≢◌, ap, ◌∙◌, Bytes, bytes_eq_refl, bytes_eq_iff, Option, none, some, length, ok,
  arith,
}
use casper_contract_kit.Casper.{Key, cl_value}
use casper_contract_kit.Casper.Codec.{Codec, Lossless}
use casper_contract_kit.Host.{Host, World, NamedKey, IsDocumented, IsCoherent}
use casper_contract_kit.Shim.{Dictionary, insert_item}
use casper_contract_kit.NamedKey.{put_dict, get_dict, write, read}
use casper_contract_kit.NamedKey.Ops.{Holds, get_dict-Reads, read-Reads}
use casper_contract_kit.NamedKey.Updates.{put_dict-Writes, write-Writes}

module _ (host : Host) (doc : IsDocumented host) {T : Type 0} (codec : Codec T) (nk : NamedKey)
    (w : World) (h : IsCoherent host w) (emptied : w.env.host_buffer ≡ none) where
  reads_after :
      (copy : ℕ) (key j : Bytes) (value : T) (o : Option T) (seed : ℕ) (d : Dictionary)
      → w.env.named_keys nk.name ≡ some (Key.uref seed)
      → w.env.dictionaries seed ≡ some d
      → length key ≤ host.item_key_max
      → length j ≤ host.item_key_max
      → Holds codec (insert_item key (codec.to_bytes value) d j) o
      → (get_dict host codec (record nk { copy = copy }) j (put_dict host codec nk key value w).1).0
        ≡ ok o
  reads_after copy key j value o seed d name dict small small_j holds =
      let put = put_dict-Writes host codec nk key value w seed d h name dict small in
      let after = (put_dict host codec nk key value w).1 in
      let changed = insert_item key (codec.to_bytes value) d in
      let there : after.env.dictionaries seed ≡ some changed =
        ap (λ f. f seed) put.same.dictionaries ∙ ground arith in
      (get_dict-Reads host codec doc (record nk { copy = copy }) j after seed changed o put.coherent
        (ap (λ f. f nk.name) put.same.named_keys ∙ name) there (put.same.host_buffer ∙ emptied)
        small_j holds).value

  -- Through any copy of a name that stands for a dictionary, an item that was put is read back. The
  -- caches agree with the host, no call has left bytes in its buffer, the key is within its limit,
  -- and the value's serialization is lossless.
  pub get_dict-put_dict :
      (copy : ℕ) (key : Bytes) (value : T) (seed : ℕ) (d : Dictionary)
      → w.env.named_keys nk.name ≡ some (Key.uref seed)
      → w.env.dictionaries seed ≡ some d
      → length key ≤ host.item_key_max
      → Lossless codec value
      → ((put_dict host codec nk key value w).0 ≡ ok tt)
        × ((get_dict host codec
              (record nk { copy = copy })
              key
              (put_dict host codec nk key value w).1).0
            ≡ ok (some value))
  get_dict-put_dict copy key value seed d name dict small lossless =
      let put = put_dict-Writes host codec nk key value w seed d h name dict small in
      let found : Holds codec (insert_item key (codec.to_bytes value) d key) (some value) =
        rw (bytes_eq_refl key) (lossless, λ e. cc) in
      (put.value, reads_after copy key key value (some value) seed d name dict small small found)

  -- Any other item is read as before.
  pub get_dict-put_dict_other :
      (copy : ℕ) (key j : Bytes) (value : T) (o : Option T) (seed : ℕ) (d : Dictionary)
      → w.env.named_keys nk.name ≡ some (Key.uref seed)
      → w.env.dictionaries seed ≡ some d
      → length key ≤ host.item_key_max
      → length j ≤ host.item_key_max
      → key ≢ j
      → Holds codec (d j) o
      → (get_dict host codec (record nk { copy = copy }) j (put_dict host codec nk key value w).1).0
        ≡ ok o
  get_dict-put_dict_other copy key j value o seed d name dict small small_j other holds =
      let unchanged : Holds codec (insert_item key (codec.to_bytes value) d j) o =
        ground (arith, bytes_eq_iff key j, holds) in
      reads_after copy key j value o seed d name dict small small_j unchanged

  -- Through any copy of a name that stands for a key, such as a `TypedURef`, a value that was written
  -- is read back. The caches agree with the host, no call has left bytes in its buffer, and the
  -- value's serialization is lossless.
  pub read-write :
      (copy : ℕ) (key : Key) (value : T)
      → w.env.named_keys nk.name ≡ some key
      → Lossless codec value
      → ((write host codec nk value w).0 ≡ ok tt)
        × ((read host codec (record nk { copy = copy }) (write host codec nk value w).1).0
            ≡ ok (some value))
  read-write copy key value name lossless =
      let put = write-Writes host codec nk key value w h name in
      let after = (write host codec nk value w).1 in
      let there : after.env.database key ≡ some (cl_value (codec.to_bytes value)) =
        ap (λ f. f key) put.same.database ∙ ground arith in
      (
        put.value,
        (read-Reads host codec (record nk { copy = copy }) key after (codec.to_bytes value) value
            put.coherent (ap (λ f. f nk.name) put.same.named_keys ∙ name) there
            (put.same.host_buffer ∙ emptied) lossless).value,
      )
