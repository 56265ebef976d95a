-- ===== src/Spooler/Config.antt =====
-- What a new configuration does to the spooler (lc-lib/spooler/spooler.go).
use log_courier.Common.{
  sub_ℕ, ℕ, ◌+◌, ◌≤◌, ◌<◌, ◌≡◌, refl, true, false, List, [], ◌∷◌, ◌++◌, length, leb, ◌||◌, arith,
  pos, ◌+ℤ◌, ◌-ℤ◌,
}
use log_courier.Spooler.{
  General, Spooler, Choice, going, taken, reconfigured, and_then, fresh_spool, reload_with,
  send_spool, reload_config, reset_timer,
}

not_due : (a b c d : ℕ) → b < a → d < c → (leb a b || leb c d) ≡ false
not_due a b c d h k = ground arith

-- If a configuration comes while a spool waits to be sent, and it asks for no flush of its own, the
-- call reports that it went well, but nothing was sent, and the spool is empty: its events are lost.
pub send_spool-reconfigured :
    (c : General) (now later : ℕ) (cs : List Choice) (s : Spooler)
    → now < s.timer_start + c.spool_timeout
    → length s.spool < c.spool_size
    → (s' : Spooler) × (send_spool (reconfigured c now later ∷ cs) s ≡ going s' cs)
      × (s'.output ≡ s.output)
      × (s'.spool ≡ [])
unfolding send_spool reload_with and_then fresh_spool
send_spool-reconfigured c now later cs s early small =
    let e =
      not_due (s.timer_start + c.spool_timeout) now c.spool_size (length s.spool) early small in
    (
      record s {
        config = c;
        timer = pos now +ℤ (sub_ℕ now s.timer_start -ℤ pos c.spool_timeout);
        spool = [];
        capacity = c.spool_size;
        spool_size = 0;
      },
      rw (e, send_spool) refl,
      refl,
      refl,
    )

-- A configuration that comes when the spool's time is over sends the spool even if it is empty.
pub reload_config-empty :
    (c : General) (now later : ℕ) (cs : List Choice) (s : Spooler)
    → s.timer_start + c.spool_timeout ≤ now
    → s.spool ≡ []
    → (s' : Spooler) × (reload_config c now later s (taken ∷ cs) ≡ going s' cs)
      × (s'.output ≡ s.output ++ [] ∷ [])
unfolding reload_config reload_with and_then send_spool fresh_spool reset_timer
reload_config-empty c now later cs s due empty =
    let e : (leb (s.timer_start + c.spool_timeout) now || leb c.spool_size (length s.spool))
        ≡ true =
      ground arith in
    (
      record s {
        config = c;
        output = s.output ++ s.spool ∷ [];
        spool = [];
        capacity = c.spool_size;
        spool_size = 0;
        timer_start = later;
        timer = pos (later + c.spool_timeout);
      },
      rw (e, reload_config) refl,
      rw empty refl,
    )
