-- ===== src/Pausable/Flag.antt =====
-- pausable.rs: the flag as the owner sets it and everyone reads it.
use casper_contract_kit.Base.{
  ℕ, ◌≡◌, refl, ap, ◌∙◌, Bool, true, false, not, none, some, if◌then◌else◌, pure, unwrap_or, err_if,
  ok, err, bind-ok, arith,
}
use casper_contract_kit.Base.{◌>>=◌, ◌>>◌}
use casper_contract_kit.Casper.{Key, ApiError, cl_value}
use casper_contract_kit.Casper.Codec.{Codec, Lossless}
use casper_contract_kit.Host.{Host, World, Action, SameHost, IsCoherent, IsDocumented}
use casper_contract_kit.NamedKey.{read, write}
use casper_contract_kit.NamedKey.Cache.{Reads}
use casper_contract_kit.NamedKey.Ops.{read-Reads}
use casper_contract_kit.NamedKey.RoundTrip.{read-write}
use casper_contract_kit.Utils.CallerLaws.{IsCalledBy}
use casper_contract_kit.Ownable.{ensure_owner}
use casper_contract_kit.Ownable.Rights.{owner_answer, ensure_owner_lem}
use casper_contract_kit.Pausable.{
  pausable_code, not_paused, already_paused, contract_paused, paused_named_key, read_flag, pause,
  unpause, is_paused, require_unpaused,
}

-- The contract has the flag under its name, with this value, and no call has left bytes behind.
pub record IsFlag (host : Host) (codec : Codec Bool) (key : Key) (flag : Bool) (w : World)
    : Type 0 where
  pub coherent : IsCoherent host w
  pub emptied : w.env.host_buffer ≡ none
  pub name : w.env.named_keys "paused" ≡ some key
  pub stored : w.env.database key ≡ some (cl_value (codec.to_bytes flag))

module _ (host : Host) (codec : Codec Bool) (lossless : (b : Bool) → Lossless codec b)
    (key : Key) where
  IsFlag-after :
      (flag : Bool) (w w' : World)
      → IsFlag host codec key flag w
      → IsCoherent host w'
      → SameHost w.env w'.env
      → IsFlag host codec key flag w'
  IsFlag-after flag w w' f h s = record {
    coherent = h;
    emptied = s.host_buffer ∙ f.emptied;
    name = ap (λ n. n "paused") s.named_keys ∙ f.name;
    stored = ap (λ d. d key) s.database ∙ f.stored;
  }

  read_flag-Reads :
      (flag : Bool) (w : World)
      → IsFlag host codec key flag w
      → Reads host w flag (read_flag host codec w)
  unfolding read_flag
  read_flag-Reads flag w f =
      let first =
        read-Reads host codec paused_named_key key w (codec.to_bytes flag) flag f.coherent f.name
          f.stored f.emptied (lossless flag) in
      let run =
        bind-ok (read host codec paused_named_key) (λ x. pure (unwrap_or false x)) w first.value in
      rw run (record { value = refl; coherent = first.coherent; same = first.same })

  -- With a lossless serialization of booleans and a flag that is stored, `is_paused` answers the
  -- flag, and `require_unpaused` fails exactly if it is set.
  pub require_unpaused_lem :
      (flag : Bool) (w : World)
      → IsFlag host codec key flag w
      → ((is_paused host codec w).0 ≡ ok flag)
        × ((require_unpaused host codec w).0
            ≡ (if flag then err (pausable_code contract_paused) else ok tt))
  unfolding is_paused require_unpaused
  require_unpaused_lem flag w f =
      let first = read_flag-Reads flag w f in
      let run =
        bind-ok (read_flag host codec) (λ p. err_if p (pausable_code contract_paused)) w
          first.value in
      (first.value, ap (λ r. r.0) run ∙ ground arith)

  write_flag :
      (new flag : Bool) (w : World)
      → IsDocumented host
      → IsFlag host codec key flag w
      → ((write host codec paused_named_key new w).0 ≡ ok tt)
        × ((is_paused host codec (write host codec paused_named_key new w).1).0 ≡ ok new)
  unfolding is_paused read_flag
  write_flag new flag w doc f =
      let (done, back) =
        read-write host doc codec paused_named_key w f.coherent f.emptied 0 key new f.name
          (lossless new) in
      let after = (write host codec paused_named_key new w).1 in
      (
        done,
        ap (λ r. r.0)
            (bind-ok (read host codec paused_named_key) (λ x. pure (unwrap_or false x)) after back),
      )

  module _ (a : ℕ) (called : IsCalledBy host a) where
    -- Both entry points get as far as the test of the flag.
    to_test :
        (flag : Bool) (k : Bool → Action ApiError (Unit {0})) (w : World)
        → IsFlag host codec key flag w
        → w.env.named_keys "owner" ≡ some (Key.account a)
        → (w' : World) × IsFlag host codec key flag w'
          × ((ensure_owner host >> (read_flag host codec >>= k)) w ≡ k flag w')
    to_test flag k w f owns =
        let (value, coherent, same) = ensure_owner_lem host a called w f.coherent f.emptied in
        let w1 = (ensure_owner host w).1 in
        let f1 = IsFlag-after flag w w1 f coherent same in
        let second = read_flag-Reads flag w1 f1 in
        (
          (read_flag host codec w1).1,
          IsFlag-after flag w1 _ f1 second.coherent second.same,
          bind-ok (ensure_owner host) (λ _. read_flag host codec >>= k) w {a = a}
                (value ∙ ap (owner_answer a) owns ∙ ground arith)
              ∙ bind-ok (read_flag host codec) k w1 second.value,
        )

    -- For the owner, over a host that is as documented, with a lossless serialization of booleans
    -- and a flag that is stored: `pause` ends without an error exactly if the flag is not set, and
    -- is refused as paused already otherwise; `unpause` the other way round. In every case the
    -- flag reads as asked for afterwards.
    pub pause-unpause :
        (flag : Bool) (w : World)
        → IsDocumented host
        → IsFlag host codec key flag w
        → w.env.named_keys "owner" ≡ some (Key.account a)
        → ((pause host codec w).0 ≡ (if flag then err (pausable_code already_paused) else ok tt))
          × ((is_paused host codec (pause host codec w).1).0 ≡ ok true)
          × ((unpause host codec w).0 ≡ (if flag then ok tt else err (pausable_code not_paused)))
          × ((is_paused host codec (unpause host codec w).1).0 ≡ ok false)
    unfolding pause unpause
    pause-unpause true w doc f owns =
        let (u, g, run) =
          to_test true
            (λ p. err_if p (pausable_code already_paused) >> write host codec paused_named_key true)
            w f owns in
        let (v, g', run') =
          to_test true
            (λ p.
              err_if (not p) (pausable_code not_paused) >> write host codec paused_named_key false)
            w f owns in
        let (done, back) = write_flag false true v doc g' in
        let (now, _) = require_unpaused_lem true u g in rw (run, run') (refl, now, done, back)
    pause-unpause false w doc f owns =
        let (u, g, run) =
          to_test false
            (λ p. err_if p (pausable_code already_paused) >> write host codec paused_named_key true)
            w f owns in
        let (v, g', run') =
          to_test false
            (λ p.
              err_if (not p) (pausable_code not_paused) >> write host codec paused_named_key false)
            w f owns in
        let (done, back) = write_flag true false u doc g in
        let (now, _) = require_unpaused_lem false v g' in rw (run, run') (done, back, refl, now)
