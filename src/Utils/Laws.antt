-- ===== src/Utils/Laws.antt =====
-- utils.rs over a host state: what each helper returns, and what it leaves.
use casper_contract_kit.Base.{
  ℕ, ◌≤◌, ◌≡◌, String, Bytes, length, none, some, inl, inr, Option-cases, ok, arith,
}
use casper_contract_kit.Casper.{Key}
use casper_contract_kit.Shim.{
  HostFunction, record_call, Dictionary, casper_get_key, casper_read_host_buffer,
}
use casper_contract_kit.Host.{Host, World, IsDocumented, SameHost}
use casper_contract_kit.Utils.{get_key, dictionary_get_bytes, read_host_buffer}

-- `get_key` answers with the named key, or with none, when the key fits its buffer.
pub get_key_eq :
    (host : Host) (name : String) (w : World)
    → ((key : Key) → w.env.named_keys name ≡ some key → host.key_size key ≤ 64)
    → get_key host name w ≡ (
      ok (w.env.named_keys name),
      record w { env = record_call (HostFunction.casper_get_key name) w.env },
    )
unfolding get_key casper_get_key
get_key_eq host name w fits = elim (Option-cases (w.env.named_keys name)) [
  | inl missing ↦ ground arith
  | inr (key, found) ↦ ground (arith, fits key found)
]

-- A dictionary item is read through the host buffer, which is empty again afterwards.
module _ (host : Host) (doc : IsDocumented host) (seed : ℕ) (key : Bytes) (w : World)
    (d : Dictionary) (small : length key ≤ host.item_key_max)
    (dict : w.env.dictionaries seed ≡ some d) (clear : w.env.host_buffer ≡ none) where
  pub dictionary_get_bytes_value : (dictionary_get_bytes host seed key w).0 ≡ ok (d key)
  unfolding dictionary_get_bytes casper_read_host_buffer read_host_buffer
  dictionary_get_bytes_value = elim (Option-cases (d key)) [
    | inl missing ↦ ground (arith, doc.dictionary_get_missing w.env seed key d dict missing)
    | inr (v, found) ↦ ground (arith, doc.dictionary_get_found w.env seed key d v dict found clear)
  ]

  pub dictionary_get_bytes_same : SameHost w.env (dictionary_get_bytes host seed key w).1.env
  unfolding dictionary_get_bytes casper_read_host_buffer read_host_buffer
  dictionary_get_bytes_same = elim (Option-cases (d key)) [
    | inl missing ↦ ground (arith, doc.dictionary_get_missing w.env seed key d dict missing)
    | inr (v, found) ↦ ground (arith, doc.dictionary_get_found w.env seed key d v dict found clear)
  ]

  pub dictionary_get_bytes_cells : (dictionary_get_bytes host seed key w).1.cells ≡ w.cells
  unfolding dictionary_get_bytes casper_read_host_buffer read_host_buffer
  dictionary_get_bytes_cells = elim (Option-cases (d key)) [
    | inl missing ↦ ground (arith, doc.dictionary_get_missing w.env seed key d dict missing)
    | inr (v, found) ↦ ground (arith, doc.dictionary_get_found w.env seed key d v dict found clear)
  ]
