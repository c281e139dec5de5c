-- ===== src/Modbus/Answers.antt =====
-- The checksum of what firmware/modbus/modbus_client.c answers.
use matemat.Base.{
  zero, suc, if_cases, ℕ, ◌+◌, ◌*◌, ◌/◌, ◌%◌, ◌≤◌, ◌≡◌, refl, ◌∙◌, inl, inr, Bool-cases, List, ◌∷◌,
  ◌++◌, arith, length, take, drop, set, get_or, length-set, length-append, length-take, length-drop,
  u8, take-set_ge, if◌then◌else◌, suc, ◌==◌, get_or-set_ne, ltb, get_or-set_self, false, leb, ◌||◌,
}
use matemat.Base.Int.{pos, negsuc}
use matemat.Modbus.Client.{
  write_holding, write_registers, Config, Answer, crc_calc, send_message, send_error, read_request,
  write_request, xwrite_request, client_process, read_registers, word_at, read_holding, read_input,
  hold_registers, input_registers,
}

-- An answer of `n` bytes and a checksum, the low byte of which comes first; or none.
pub data IsAnswer (k : Config) (a : Answer) : Type 0 where
  none_sent : a.recv_len ≡ negsuc 0 → IsAnswer k a
  checked :
      (n : ℕ)
      → a.recv_len ≡ pos (n + 2)
      → get_or a.bytes n 0 ≡ crc_calc k (take n a.bytes) % 256
      → get_or a.bytes (n + 1) 0 ≡ crc_calc k (take n a.bytes) / 256 % 256
      → IsAnswer k a

send_message-IsAnswer :
    (k : Config) (n : ℕ) (holding s : List ℕ)
    → n + 2 ≤ length s
    → IsAnswer k (send_message k n holding s)
unfolding send_message
send_message-IsAnswer k n holding s h =
    let low = crc_calc k (take n s) % 256 in
    let high = crc_calc k (take n s) / 256 % 256 in
    let t1 = set s n low in
    let t2 = set t1 (n + 1) high in
    let prefix : take n t2 ≡ take n s =
      take-set_ge n (n + 1) high t1 (omega arith) ∙ take-set_ge n n low s (omega arith) in
    let first : get_or t2 n 0 ≡ low =
      get_or-set_ne t1 (n + 1) n high 0 (omega arith) ∙ get_or-set_self s n low 0 (omega arith) in
    let second : get_or t2 (n + 1) 0 ≡ high =
      get_or-set_self t1 (n + 1) high 0 (omega (arith, length-set s n low)) in
    elim (Bool-cases (get_or s 0 0 == k.broadcast)) [
      | inl b ↦ rw b (IsAnswer.none_sent refl)
      | inr b ↦ rw b (IsAnswer.checked n refl (first ∙ rw prefix) (second ∙ rw prefix))
    ]

send_error-IsAnswer :
    (k : Config) (code : ℕ) (holding s : List ℕ)
    → 5 ≤ length s
    → IsAnswer k (send_error k code holding s)
unfolding send_error
send_error-IsAnswer k code holding s h =
    let cmd = get_or s 1 0 in
    let failed = if ltb cmd 128 then cmd + 128 else cmd in
    let s2 = set s 2 code in
    let s0 = set s2 0 k.address in
    send_message-IsAnswer k 3 holding (set s0 1 failed)
      (omega (arith, length-set s 2 code, length-set s2 0 k.address, length-set s0 1 failed))

pub length-read_registers :
    (reg : ℕ → ℕ) (address n : ℕ) → length (read_registers reg address n) ≡ n * 2
unfolding read_registers
length-read_registers reg address zero = omega arith
length-read_registers reg address (suc n) = omega (arith, length-read_registers reg (address + 1) n)

read_request-IsAnswer :
    (k : Config) (holding s : List ℕ) → 100 ≤ length s → IsAnswer k (read_request k holding s)
unfolding read_request
read_request-IsAnswer k holding s h =
    let is_holding = get_or s 1 0 == 3 in
    let ptr = u8 (word_at s 2) in
    let len = u8 (word_at s 4) in
    let reg = if is_holding then read_holding holding else read_input in
    let answer = k.address ∷ get_or s 1 0 ∷ u8 (len * 2) ∷ read_registers reg ptr len in
    let n = u8 (len * 2) + 3 in
    let small : ltb (if is_holding then hold_registers else input_registers) (ptr + len) ≡ false
        → len ≤ 11 =
      λ e. ground (arith, e) in
    elim (Bool-cases (ltb (if is_holding then hold_registers else input_registers) (ptr + len))) [
      | inl e ↦ rw e (send_error-IsAnswer k 2 holding s (omega arith))
      | inr e ↦ rw e (
          send_message-IsAnswer k n holding (take n answer ++ drop n s) (
            omega (
              arith,
              small e,
              length-append (take n answer) (drop n s),
              length-take n answer,
              length-drop n s,
              length-read_registers reg ptr len,
            )))
    ]

write_request-IsAnswer :
    (k : Config) (n : ℕ) (holding s : List ℕ)
    → 100 ≤ length s
    → n + 2 ≤ length s
    → IsAnswer k (write_request k n holding s)
unfolding write_request
write_request-IsAnswer k n holding s h fits = elim (Bool-cases (leb hold_registers (word_at s 2))) [
  | inl e ↦ rw e (send_error-IsAnswer k 2 holding s (omega arith))
  | inr e ↦
      rw e (send_message-IsAnswer k n (write_holding holding (word_at s 2) (word_at s 4)) s fits)
]

xwrite_request-IsAnswer :
    (k : Config) (holding s : List ℕ) → 100 ≤ length s → IsAnswer k (xwrite_request k holding s)
unfolding xwrite_request
xwrite_request-IsAnswer k holding s h =
    let ptr = u8 (word_at s 2) in
    let len = u8 (word_at s 4) in
    let written = write_registers s holding ptr 7 len in
    let answer = k.address ∷ 0x10 ∷ 0 ∷ ptr ∷ 0 ∷ len ∷ drop 6 s in
    elim (Bool-cases (leb hold_registers (ptr + len))) [
      | inl e ↦ rw e (send_error-IsAnswer k 2 holding s (omega arith))
      | inr e ↦ rw e (send_message-IsAnswer k 6 written answer (omega (arith, length-drop 6 s)))
    ]

-- Whatever request stands in an array of at least 100 bytes, with any function code and any
-- addresses, if its length leaves room for a checksum: either no answer is sent, or the answer is
-- followed by its own checksum, the low byte first.
client_process-IsAnswer :
    (k : Config) (length' : ℕ) (holding s : List ℕ)
    → 100 ≤ length s
    → length' + 2 ≤ length s
    → IsAnswer k (client_process k length' holding s)
unfolding client_process
client_process-IsAnswer k n holding s h fits =
    let known =
      if_cases (IsAnswer k) (get_or s 1 0 == 16) (xwrite_request-IsAnswer k holding s h)
        (send_error-IsAnswer k 1 holding s (omega arith)) in
    let rest =
      if_cases (IsAnswer k) (get_or s 1 0 == 6) (write_request-IsAnswer k n holding s h fits)
        known in
    if_cases (IsAnswer k) (get_or s 1 0 == 3 || get_or s 1 0 == 4)
      (read_request-IsAnswer k holding s h) rest
