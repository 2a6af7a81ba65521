-- ===== src/Collections/Open.antt =====
-- The dictionary that a collection of crates/contract-api/src/collections keeps under its named key.
use casper_contract_kit.Base.{
  ℕ, ◌≤◌, ◌≡◌, ◌≢◌, refl, ap, ◌∙◌, Bytes, Option, none, some, length, ok, bytes_eq_refl,
  bytes_eq_iff, arith,
}
use casper_contract_kit.Casper.{Key}
use casper_contract_kit.Casper.Codec.{Codec}
use casper_contract_kit.Host.{Host, World, NamedKey, IsDocumented, IsCoherent}
use casper_contract_kit.Shim.{Dictionary, insert_item}
use casper_contract_kit.NamedKey.{put_dict, get_dict}
use casper_contract_kit.NamedKey.Ops.{Holds, get_dict-Reads}
use casper_contract_kit.NamedKey.Updates.{put_dict-Writes}

-- The name stands for a dictionary of content `d`, no cache disagrees with the host, and no call has
-- left bytes in the host's buffer.
pub record IsOpen (host : Host) (nk : NamedKey) (d : Dictionary) (w : World) : Type 0 where
  pub seed : ℕ
  pub coherent : IsCoherent host w
  pub emptied : w.env.host_buffer ≡ none
  pub name : w.env.named_keys nk.name ≡ some (Key.uref seed)
  pub content : w.env.dictionaries seed ≡ some d

pub insert_item-same :
    (key value : Bytes) (d : Dictionary) → insert_item key value d key ≡ some value
insert_item-same key value d = rw (bytes_eq_refl key) refl

pub insert_item-other :
    (key j value : Bytes) (d : Dictionary) → key ≢ j → insert_item key value d j ≡ d j
insert_item-other key j value d other = ground (arith, bytes_eq_iff key j)

module _ (host : Host) (doc : IsDocumented host) (nk : NamedKey) {T : Type 0}
    (codec : Codec T) where
  pub get_dict-IsOpen :
      (d : Dictionary) (w : World) (key : Bytes) (o : Option T)
      → IsOpen host nk d w
      → length key ≤ host.item_key_max
      → Holds codec (d key) o
      → ((get_dict host codec nk key w).0 ≡ ok o)
        × IsOpen host nk d (get_dict host codec nk key w).1
  get_dict-IsOpen d w key o open_w small holds =
      let got =
        get_dict-Reads host codec doc nk key w open_w.seed d o open_w.coherent open_w.name
          open_w.content open_w.emptied small holds in
      (
        got.value,
        record {
          seed = open_w.seed;
          coherent = got.coherent;
          emptied = got.same.host_buffer ∙ open_w.emptied;
          name = ap (λ f. f nk.name) got.same.named_keys ∙ open_w.name;
          content = ap (λ f. f open_w.seed) got.same.dictionaries ∙ open_w.content;
        },
      )

  pub put_dict-IsOpen :
      (d : Dictionary) (w : World) (key : Bytes) (value : T)
      → IsOpen host nk d w
      → length key ≤ host.item_key_max
      → ((put_dict host codec nk key value w).0 ≡ ok tt)
        × IsOpen host nk
            (insert_item key (codec.to_bytes value) d)
            (put_dict host codec nk key value w).1
  put_dict-IsOpen d w key value open_w small =
      let put =
        put_dict-Writes host codec nk key value w open_w.seed d open_w.coherent open_w.name
          open_w.content small in
      (
        put.value,
        record {
          seed = open_w.seed;
          coherent = put.coherent;
          emptied = put.same.host_buffer ∙ open_w.emptied;
          name = ap (λ f. f nk.name) put.same.named_keys ∙ open_w.name;
          content = ap (λ f. f open_w.seed) put.same.dictionaries ∙ ground arith;
        },
      )
