-- ===== src/Kernel/Devices.antt =====
-- The lists of `blocked_proc[]` that belong to the devices: `getIODeviceIndex` of phase2/scheduler.c.
use progetto_so.Base.{
  ℕ, ◌+◌, ◌*◌, ◌/◌, ◌%◌, ◌<◌, ◌≡◌, ◌==◌, refl, ap, sym, ◌∙◌, true, false, leb, if◌then◌else◌, arith,
}
use progetto_so.Kernel.State.{clock_list}
use progetto_so.Kernel.Run.{sub_word}

abbrev pub term_0_addr : ℕ
term_0_addr = 0x1000_0254

-- `start` and `size` are the library's `DEV_REG_START` and `DEV_REG_SIZE`.
unfoldable pub get_io_device_index : (start size cmd_addr : ℕ) → ℕ
get_io_device_index start size cmd_addr =
    if leb term_0_addr cmd_addr
    then if (cmd_addr / 8) % 2 == 1
      then sub_word (sub_word cmd_addr 4) start / size
      else sub_word (sub_word cmd_addr 12) start / size + 8
    else sub_word (sub_word cmd_addr 4) start / size

-- The command fields: of device `dev` on interrupt line `line + 3`, and the two of terminal `dev`.
pub data Command : Type 0 where
  device : (line dev : ℕ) → Command
  receive transmit : (dev : ℕ) → Command

abbrev pub IsCommand : Command → Type 0
IsCommand (device line dev) = (line < 4) × (dev < 8)
IsCommand (receive dev) = dev < 8
IsCommand (transmit dev) = dev < 8

-- The machine's documented addresses: a register block has 16 bytes, its command stands at 4, and that of a
-- terminal's transmitter at 12.
abbrev pub command_address : (start : ℕ) → Command → ℕ
command_address start (device line dev) = start + (line * 8 + dev) * 16 + 4
command_address start (receive dev) = start + (32 + dev) * 16 + 4
command_address start (transmit dev) = start + (32 + dev) * 16 + 12

-- Eight lists for each of the lines 3 to 6, eight for the receivers and eight for the transmitters.
abbrev pub position : Command → ℕ
position (device line dev) = line * 8 + dev
position (receive dev) = 32 + dev
position (transmit dev) = 40 + dev

place_device :
    (start size line dev : ℕ)
    → start ≡ 0x1000_0054
    → size ≡ 16
    → line < 4
    → dev < 8
    → get_io_device_index start size (start + (line * 8 + dev) * 16 + 4) ≡ line * 8 + dev
unfolding get_io_device_index
place_device start size line dev e f l d =
    let low : leb term_0_addr (0x1000_0054 + (line * 8 + dev) * 16 + 4) ≡ false = ground arith in
    rw (e, f, low) (omega (arith, l, d))

place_receive :
    (start size dev : ℕ)
    → start ≡ 0x1000_0054
    → size ≡ 16
    → dev < 8
    → get_io_device_index start size (start + (32 + dev) * 16 + 4) ≡ 32 + dev
unfolding get_io_device_index
place_receive start size dev e f d =
    let high : leb term_0_addr (0x1000_0054 + (32 + dev) * 16 + 4) ≡ true = ground arith in
    let odd : ((0x1000_0054 + (32 + dev) * 16 + 4) / 8) % 2 ≡ 1 = omega (arith, d) in
    rw (e, f, high, odd) (omega (arith, d))

place_transmit :
    (start size dev : ℕ)
    → start ≡ 0x1000_0054
    → size ≡ 16
    → dev < 8
    → get_io_device_index start size (start + (32 + dev) * 16 + 12) ≡ 40 + dev
unfolding get_io_device_index
place_transmit start size dev e f d =
    let high : leb term_0_addr (0x1000_0054 + (32 + dev) * 16 + 12) ≡ true = ground arith in
    let even : ((0x1000_0054 + (32 + dev) * 16 + 12) / 8) % 2 ≡ 0 = omega (arith, d) in
    rw (e, f, high, even) (omega (arith, d))

-- Every command field has its own list, below the pseudo-clock's.
pub get_io_device_index-position :
    (start size : ℕ) (c : Command)
    → start ≡ 0x1000_0054
    → size ≡ 16
    → IsCommand c
    → (get_io_device_index start size (command_address start c) ≡ position c)
      × (position c < clock_list)
unfolding get_io_device_index
get_io_device_index-position start size (device line dev) e f (l, d) =
    (place_device start size line dev e f l d, omega (arith, l, d))
get_io_device_index-position start size (receive dev) e f d =
    (place_receive start size dev e f d, omega (arith, d))
get_io_device_index-position start size (transmit dev) e f d =
    (place_transmit start size dev e f d, omega (arith, d))

position-injective : (c e : Command) → IsCommand c → IsCommand e → position c ≡ position e → c ≡ e
position-injective (device l d) (device m e) (p, q) (r, s) same =
    let line : l ≡ m = omega (arith, p, q, r, s, same) in
    let dev : d ≡ e = omega (arith, p, q, r, s, same) in rw (line, dev) refl
position-injective (device l d) (receive e) (p, q) s same = absurd (omega (arith, p, q, s, same))
position-injective (device l d) (transmit e) (p, q) s same = absurd (omega (arith, p, q, s, same))
position-injective (receive d) (device m e) p (r, s) same = absurd (omega (arith, p, r, s, same))
position-injective (receive d) (receive e) p s same = ap receive (omega (arith, same))
position-injective (receive d) (transmit e) p s same = absurd (omega (arith, p, s, same))
position-injective (transmit d) (device m e) p (r, s) same = absurd (omega (arith, p, r, s, same))
position-injective (transmit d) (receive e) p s same = absurd (omega (arith, p, s, same))
position-injective (transmit d) (transmit e) p s same = ap transmit (omega (arith, same))

-- Two command fields with the same list are the same one.
pub get_io_device_index-injective :
    (start size : ℕ) (c e : Command)
    → start ≡ 0x1000_0054
    → size ≡ 16
    → IsCommand c
    → IsCommand e
    → get_io_device_index start size (command_address start c)
      ≡ get_io_device_index start size (command_address start e)
    → c ≡ e
get_io_device_index-injective start size c e a b pc pe same = position-injective c e pc pe (
    sym (get_io_device_index-position start size c a b pc).0
    ∙ same
    ∙ (get_io_device_index-position start size e a b pe).0)
