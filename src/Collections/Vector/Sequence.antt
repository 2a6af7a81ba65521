-- ===== src/Collections/Vector/Sequence.antt =====
-- vector.rs: a vector is a list.
use casper_contract_kit.Base.{
  ℕ, ◌+◌, ◌≤◌, ◌<◌, ◌≡◌, ◌%◌, ◌^◌, ap, ◌∙◌, List, [], ◌∷◌, ◌++◌, length, ok, unwrap_or, pure,
  bind-ok, arith,
}
use casper_contract_kit.Base.{◌>>◌}
use casper_contract_kit.Casper.Codec.{Codec, Lossless}
use casper_contract_kit.Host.{Host, World, NamedKey, IsDocumented}
use casper_contract_kit.Shim.{Dictionary}
use casper_contract_kit.NamedKey.{put_dict, get_dict}
use casper_contract_kit.Collections.Open.{IsOpen, get_dict-IsOpen, put_dict-IsOpen}
use casper_contract_kit.Collections.Vector.{vec_length_key, item_key, len, set_len, push, get}
use casper_contract_kit.Collections.Vector.Items.{
  get_elem?, length-item_key, Stores, pushed, pushed-Stores,
}

-- The vector under the name is the list `xs`.
pub record IsVector {T : Type 0} (host : Host) (u64_codec : Codec ℕ) (codec : Codec T)
    (nk : NamedKey) (xs : List T) (w : World) : Type 0 where
  pub content : Dictionary
  pub open_content : IsOpen host nk content w
  pub stores : Stores u64_codec codec xs content

module _ (host : Host) (doc : IsDocumented host) (room : 10 ≤ host.item_key_max)
    (u64_codec : Codec ℕ) {T : Type 0} (codec : Codec T) (nk : NamedKey) where
  -- Over a host that reads dictionaries as documented, with item keys of 10 bytes allowed, `len`
  -- on a vector that is the list `xs` answers the length of `xs`, and leaves the vector as it is.
  pub len-IsVector :
      (xs : List T) (w : World)
      → IsVector host u64_codec codec nk xs w
      → ((len host u64_codec codec nk w).0 ≡ ok (length xs))
        × IsVector host u64_codec codec nk xs (len host u64_codec codec nk w).1
  unfolding len
  len-IsVector xs w v =
      let (value, after) =
        get_dict-IsOpen host doc nk u64_codec v.content w vec_length_key v.stores.stored_length
          v.open_content (ground arith) v.stores.length_item in
      let run =
        bind-ok (get_dict host u64_codec nk vec_length_key) (λ n. pure (unwrap_or 0 n)) w value in
      rw run (
        ap ok v.stores.is_length,
        record { content = v.content; open_content = after; stores = v.stores },
      )

  -- Over a host that reads dictionaries as documented, with item keys of 10 bytes allowed, `get`
  -- on a vector that is the list `xs` answers the element of `xs` at a u64 index, or nothing past
  -- its end, and leaves the vector as it is.
  get-IsVector :
      (xs : List T) (i : ℕ) (w : World)
      → IsVector host u64_codec codec nk xs w
      → i < 2 ^ 64
      → ((get host u64_codec codec nk i w).0 ≡ ok (get_elem? xs i))
        × IsVector host u64_codec codec nk xs (get host u64_codec codec nk i w).1
  unfolding get
  get-IsVector xs i w v small =
      let (value, after) =
        get_dict-IsOpen host doc nk codec v.content w (item_key i) (get_elem? xs i) v.open_content
          (rw (length-item_key i) room) (v.stores.items i small) in
      (value, record { content = v.content; open_content = after; stores = v.stores })

  -- Over a host that reads dictionaries as documented, with item keys of 10 bytes allowed, `push`
  -- on a vector that is the list `xs` ends without an error and leaves the vector that is `xs`
  -- with the value appended, when the new length fits a u64 and the serializations of the value
  -- and of the new length are lossless.
  pub push-IsVector :
      (xs : List T) (x : T) (w : World)
      → IsVector host u64_codec codec nk xs w
      → length xs + 1 < 2 ^ 64
      → Lossless codec x
      → Lossless u64_codec (length xs + 1)
      → ((push host u64_codec codec nk x w).0 ≡ ok tt)
        × IsVector host u64_codec codec nk (xs ++ (x ∷ [])) (push host u64_codec codec nk x w).1
  unfolding push set_len pushed
  push-IsVector xs x w v small lossless lossless_len =
      let n = length xs in
      let (value, v1) = len-IsVector xs w v in
      let w1 = (len host u64_codec codec nk w).1 in
      let (put, open2) =
        put_dict-IsOpen host doc nk codec v1.content w1 (item_key n) x v1.open_content
          (rw (length-item_key n) room) in
      let w2 = (put_dict host codec nk (item_key n) x w1).1 in
      let (done, open3) =
        put_dict-IsOpen host doc nk u64_codec _ w2 vec_length_key (n + 1) open2 (ground arith) in
      let wrap : (n + 1) % 2 ^ 64 ≡ n + 1 = omega arith in
      let run : push host u64_codec codec nk x w
          ≡ put_dict host u64_codec nk vec_length_key (n + 1) w2 =
        bind-ok (len host u64_codec codec nk)
          (λ n.
            put_dict host codec nk (item_key n) x
            >> set_len host u64_codec codec nk ((n + 1) % 2 ^ 64))
          w value
        ∙ bind-ok (put_dict host codec nk (item_key n) x)
            (λ _. set_len host u64_codec codec nk ((n + 1) % 2 ^ 64)) w1 put
        ∙ ap (λ m. put_dict host u64_codec nk vec_length_key m w2) wrap in
      rw run (
        done,
        record {
          content = pushed u64_codec codec x xs v1.content;
          open_content = open3;
          stores =
              pushed-Stores u64_codec codec x xs v1.content small lossless lossless_len v1.stores;
        },
      )
