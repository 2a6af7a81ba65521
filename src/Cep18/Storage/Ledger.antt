-- ===== src/Cep18/Storage/Ledger.antt =====
-- balances.rs and allowances.rs: what is stored is a total map of numbers, 0 where nothing was written.
use casper_contract_kit.Base.{
  ℕ, ◌≤◌, ◌≡◌, ◌≢◌, ◌⊎◌, inl, inr, true, false, bytes_eq, bytes_eq_iff, Bool-cases, refl, sym, ap,
  Bytes, Option, some, length, Exec, ok, pure, map_err, unwrap_or, bind-ok, arith,
}
use casper_contract_kit.Base.{◌>>=◌}
use casper_contract_kit.Casper.{Key, ApiError}
use casper_contract_kit.Casper.Codec.{Codec, Lossless}
use casper_contract_kit.Host.{Host, World, NamedKey, IsDocumented}
use casper_contract_kit.Shim.{Dictionary, insert_item}
use casper_contract_kit.NamedKey.{put_dict, get_dict}
use casper_contract_kit.NamedKey.Ops.{Holds}
use casper_contract_kit.Collections.Open.{
  insert_item-other, IsOpen, get_dict-IsOpen, put_dict-IsOpen,
}
use casper_contract_kit.Cep18.Error.{Cep18Error, failed_to_read_from_storage}
use casper_contract_kit.Cep18.Token.{set_balance, set_allowance}
use casper_contract_kit.Cep18.Storage.{
  balances_dict, allowances_dict, balance_item_key, read_balance_from, write_balance_to,
  allowance_item_key, read_allowance_from, write_allowance_to,
}

-- One stored number: an item that decodes as `n`, or none for 0.
pub record IsNumber (codec : Codec ℕ) (bytes : Option Bytes) (n : ℕ) : Type 0 where
  pub stored : Option ℕ
  pub holds : Holds codec bytes stored
  pub is_number : unwrap_or 0 stored ≡ n

-- The dictionary under the name has the numbers `f`.
pub record IsLedger {K : Type 0} (host : Host) (codec : Codec ℕ) (nk : NamedKey) (item : K → Bytes)
    (f : K → ℕ) (w : World) : Type 0 where
  pub content : Dictionary
  pub open_content : IsOpen host nk content w
  pub numbers : (k : K) → IsNumber codec (content (item k)) (f k)

map_err-ok :
    {S A : Type 0} (f : ApiError → Cep18Error) (m : Exec S ApiError ApiError A) (s : S) {a : A}
    → (m s).0 ≡ ok a
    → map_err {X = ApiError} f m s ≡ (ok a, (m s).1)
map_err-ok f m s e = ground arith

module _ (host : Host) (doc : IsDocumented host) (codec : Codec ℕ) (nk : NamedKey) {K : Type 0}
    (item : K → Bytes) (short : (k : K) → length (item k) ≤ host.item_key_max) where
  read-IsLedger :
      (f : K → ℕ) (k : K) (w : World)
      → IsLedger host codec nk item f w
      → let r =
          (map_err {X = ApiError}
                (λ _. failed_to_read_from_storage)
                (get_dict host codec nk (item k))
              >>= λ value. pure (unwrap_or 0 value))
            w in
        (r.0 ≡ ok (f k)) × IsLedger host codec nk item f r.1
  read-IsLedger f k w l =
      let number = l.numbers k in
      let (value, after) =
        get_dict-IsOpen host doc nk codec l.content w (item k) number.stored l.open_content
          (short k) number.holds in
      let got =
        map_err-ok (λ _. failed_to_read_from_storage) (get_dict host codec nk (item k)) w value in
      let run =
        bind-ok (map_err (λ _. failed_to_read_from_storage) (get_dict host codec nk (item k)))
          (λ value. pure (unwrap_or 0 value)) w (ap (λ r. r.0) got) in
      rw (run, got)
        (
          ap ok number.is_number,
          record { content = l.content; open_content = after; numbers = l.numbers },
        )

  write-IsLedger :
      (f g : K → ℕ) (k : K) (n : ℕ) (w : World)
      → Lossless codec n
      → ((j : K) → item k ≡ item j → g j ≡ n)
      → ((j : K) → item k ≢ item j → g j ≡ f j)
      → IsLedger host codec nk item f w
      → let r =
          map_err {X = ApiError}
            (λ _. failed_to_read_from_storage)
            (put_dict host codec nk (item k) n)
            w in
        (r.0 ≡ ok tt) × IsLedger host codec nk item g r.1
  write-IsLedger f g k n w lossless same other l =
      let (value, after) =
        put_dict-IsOpen host doc nk codec l.content w (item k) n l.open_content (short k) in
      rw (map_err-ok (λ _. failed_to_read_from_storage) (put_dict host codec nk (item k) n) w value)
        (
          refl,
          record {
            content = insert_item (item k) (codec.to_bytes n) l.content;
            open_content = after;
            numbers = λ j. number j (Bool-cases (bytes_eq (item k) (item j)));
          },
        )
    where
      number :
          (j : K)
          → (bytes_eq (item k) (item j) ≡ true) ⊎ (bytes_eq (item k) (item j) ≡ false)
          → IsNumber codec (insert_item (item k) (codec.to_bytes n) l.content (item j)) (g j)
      number j (inl equal) =
          let e : item k ≡ item j = (bytes_eq_iff (item k) (item j)).0 equal in
          record {
            stored = some n;
            holds = rw equal (lossless, λ e. cc);
            is_number = sym (same j e);
          }
      number j (inr differ) =
          let e : item k ≢ item j = λ e. ground (arith, bytes_eq_iff (item k) (item j)) in
          rw (insert_item-other (item k) (item j) (codec.to_bytes n) l.content e, other j e)
            (l.numbers j)

module _ (host : Host) (doc : IsDocumented host) (codec : Codec ℕ)
    (key_to_bytes : Key → Bytes) where
  -- Over a host that reads dictionaries as documented, with a lossless serialization of the amount
  -- that is written and item keys that are short and distinct, the stored balances are a total map: reading answers it,
  -- with 0 for an account that was never written, and writing sets one balance of it.
  pub balances-IsLedger :
      (base64_encode : Bytes → Bytes)
      → ((k : Key) → length (balance_item_key key_to_bytes base64_encode k) ≤ host.item_key_max)
      → ((j k : Key)
          → balance_item_key key_to_bytes base64_encode j
            ≡ balance_item_key key_to_bytes base64_encode k
          → j ≡ k)
      → (f : Key → ℕ) (k : Key) (n : ℕ) (w : World) → Lossless codec n
      → IsLedger host codec balances_dict (balance_item_key key_to_bytes base64_encode) f w
      → ((read_balance_from key_to_bytes base64_encode host codec k w).0 ≡ ok (f k))
        × IsLedger host codec balances_dict
            (balance_item_key key_to_bytes base64_encode)
            f
            (read_balance_from key_to_bytes base64_encode host codec k w).1
        × ((write_balance_to key_to_bytes base64_encode host codec k n w).0 ≡ ok tt)
        × IsLedger host codec balances_dict
            (balance_item_key key_to_bytes base64_encode)
            (set_balance k n f)
            (write_balance_to key_to_bytes base64_encode host codec k n w).1
  unfolding read_balance_from write_balance_to
  balances-IsLedger base64_encode short injective f k n w lossless l =
      let item = balance_item_key key_to_bytes base64_encode in
      let (value, read) = read-IsLedger host doc codec balances_dict item short f k w l in
      let (done, written) =
        write-IsLedger host doc codec balances_dict item short f (set_balance k n f) k n w lossless
          (λ j e. ground (arith, injective k j)) (λ j e. ground arith) l in
      (value, read, done, written)

  -- Under the same conditions, where the item key of an owner and a spender is the hash of both and no
  -- two pairs of keys collide, the stored allowances are a total map of owner and spender.
  pub allowances-IsLedger :
      (blake2b hex_encode : Bytes → Bytes)
      → ((p : Key × Key)
          → length (allowance_item_key key_to_bytes blake2b hex_encode p) ≤ host.item_key_max)
      → ((p q : Key × Key)
          → allowance_item_key key_to_bytes blake2b hex_encode p
            ≡ allowance_item_key key_to_bytes blake2b hex_encode q
          → p ≡ q)
      → (f : Key → Key → ℕ) (o s : Key) (n : ℕ) (w : World) → Lossless codec n
      → IsLedger host codec allowances_dict
          (allowance_item_key key_to_bytes blake2b hex_encode)
          (λ p. f p.0 p.1)
          w
      → ((read_allowance_from key_to_bytes blake2b hex_encode host codec o s w).0 ≡ ok (f o s))
        × IsLedger host codec allowances_dict
            (allowance_item_key key_to_bytes blake2b hex_encode)
            (λ p. f p.0 p.1)
            (read_allowance_from key_to_bytes blake2b hex_encode host codec o s w).1
        × ((write_allowance_to key_to_bytes blake2b hex_encode host codec o s n w).0 ≡ ok tt)
        × IsLedger host codec allowances_dict
            (allowance_item_key key_to_bytes blake2b hex_encode)
            (λ p. set_allowance o s n f p.0 p.1)
            (write_allowance_to key_to_bytes blake2b hex_encode host codec o s n w).1
  unfolding read_allowance_from write_allowance_to
  allowances-IsLedger blake2b hex_encode short injective f o s n w lossless l =
      let item = allowance_item_key key_to_bytes blake2b hex_encode in
      let g : Key × Key → ℕ = λ p. f p.0 p.1 in
      let (value, read) = read-IsLedger host doc codec allowances_dict item short g (o, s) w l in
      let (done, written) =
        write-IsLedger host doc codec allowances_dict item short g
          (λ p. set_allowance o s n f p.0 p.1) (o, s) n w lossless
          (λ p e. same p (injective (o, s) p e)) (λ p e. other p (λ q. e (ap item q))) l in
      (value, read, done, written)
    where
      same : (p : Key × Key) → ◌≡◌ {A = Key × Key} (o, s) p → set_allowance o s n f p.0 p.1 ≡ n
      same p e =
          let owner : p.0 ≡ o = sym (ap (λ q. q.0) e) in
          let spender : p.1 ≡ s = sym (ap (λ q. q.1) e) in ground arith

      other :
          (p : Key × Key) → ◌≢◌ {A = Key × Key} (o, s) p → set_allowance o s n f p.0 p.1 ≡ f p.0 p.1
      other p d =
          let equal : p.0 ≡ o → p.1 ≡ s → ◌≡◌ {A = Key × Key} (o, s) p =
            λ a b i. (sym a i, sym b i) in
          ground (arith, equal)
