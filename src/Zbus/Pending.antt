-- ===== src/Zbus/Pending.antt =====
-- How long a message waits for the bus in firmware/zbus/zbus.c.
use matemat.Base.{ℕ, zero, suc, ◌-◌, ◌<◌, ◌≡◌, refl, List, [], ◌∷◌, ◌++◌, arith}
use matemat.Zbus.{Bus, sending, escape, zbus_start, core_periodic, txstart}

-- `n` calls of `zbus_core_periodic`.
unfoldable pub periodic_run : ℕ → Bus → Bus × List ℕ
periodic_run zero b = (b, [])
periodic_run (suc n) b =
    let (b1, out) = core_periodic b in let (b2, rest) = periodic_run n b1 in (b2, out ++ rest)

core_periodic-wait :
    (n : ℕ) (b : Bus)
    → b.bus_blocked ≡ suc (suc n)
    → core_periodic b ≡ (record b { bus_blocked = suc n }, [])
unfolding core_periodic
core_periodic-wait n b h = let e : b.bus_blocked - 1 ≡ suc n = omega arith in ground arith

-- A message that waits while the bus is blocked is started by the periodic calls alone: the call
-- that counts the block down to 0 switches to sending and puts the first byte of the start sequence
-- on the line, and the calls before it put nothing there.
pub periodic_run-starts :
    (n : ℕ) (b : Bus)
    → b.bus_blocked ≡ suc n
    → 0 < b.send_len
    → let (b', out) = periodic_run (suc n) b in
      (out ≡ escape ∷ [])
      × (b'.mode ≡ sending)
      × (b'.send_escape_data ≡ zbus_start)
      × (b'.bus_blocked ≡ 3)
      × (b'.send_len ≡ b.send_len)
unfolding periodic_run core_periodic txstart
periodic_run-starts zero b h p = ground arith
periodic_run-starts (suc n) b h p =
    let w = core_periodic-wait n b h in
    let ih = periodic_run-starts n (record b { bus_blocked = suc n }) refl p in rw w ih
