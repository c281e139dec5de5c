-- ===== src/Modbus/Registers.antt =====
-- Reading and writing the registers through firmware/modbus/modbus_client.c.
use matemat.Base.{
  ℕ, zero, suc, ◌+◌, ◌*◌, ◌/◌, ◌%◌, ◌≤◌, ◌<◌, ◌≡◌, ◌≢◌, refl, ◌∙◌, false, List, [], ◌∷◌, ◌++◌,
  arith, length, take, drop, set, get_or, ◌==◌, ==_iff, Bool-cases, inl, inr, if◌then◌else◌, u8,
  get_or-set_self, get_or-set_ne, length-take, ltb, leb, length-set, length-append, length-drop,
}
use matemat.Base.Int.{pos}
use matemat.Modbus.Client.{
  Config, crc_calc, word_at, hold_registers, read_holding, write_holding, read_registers,
  send_message, read_request, write_request, client_process,
}
use matemat.Modbus.Answers.{length-read_registers}

-- A request with the function code `cmd` and the words `ptr` and `n`, in the array of a frame.
pub record IsRequest (cmd ptr n : ℕ) (s : List ℕ) : Type 0 where
  pub room : 100 ≤ length s
  pub code : get_or s 1 0 ≡ cmd
  pub pointer : word_at s 2 ≡ ptr
  pub number : word_at s 4 ≡ n

get_or-read_registers :
    (reg : ℕ → ℕ) (address n i : ℕ)
    → i < n
    → word_at (read_registers reg address n) (i * 2) ≡ reg (address + i)
unfolding read_registers
get_or-read_registers reg address zero i h = absurd (omega arith)
get_or-read_registers reg address (suc n) zero h =
    let e : address + 0 ≡ address = omega arith in rw e (omega arith)
get_or-read_registers reg address (suc n) (suc i) h =
    let two : suc i * 2 ≡ suc (suc (i * 2)) = omega arith in
    let three : suc (suc (i * 2)) + 1 ≡ suc (suc (i * 2 + 1)) = omega arith in
    let shift : address + suc i ≡ address + 1 + i = omega arith in
    rw (two, three, shift) (get_or-read_registers reg (address + 1) n i (omega arith))

get_or-append : (xs ys : List ℕ) (i : ℕ) → i < length xs → get_or (xs ++ ys) i 0 ≡ get_or xs i 0
get_or-append [] ys i h = absurd (omega arith)
get_or-append (x ∷ xs) ys zero h = refl
get_or-append (x ∷ xs) ys (suc i) h = get_or-append xs ys i (omega arith)

get_or-take : (n : ℕ) (xs : List ℕ) (i : ℕ) → i < n → get_or (take n xs) i 0 ≡ get_or xs i 0
get_or-take zero xs i h = absurd (omega arith)
get_or-take (suc n) [] i h = refl
get_or-take (suc n) (x ∷ xs) zero h = refl
get_or-take (suc n) (x ∷ xs) (suc i) h = get_or-take n xs i (omega arith)

-- The answer's bytes stay as they are, before the checksum.
get_or-send_message :
    (k : Config) (n : ℕ) (holding s : List ℕ) (i : ℕ)
    → i < n
    → get_or (send_message k n holding s).bytes i 0 ≡ get_or s i 0
unfolding send_message
get_or-send_message k n holding s i h =
    let low = crc_calc k (take n s) % 256 in
    let high = crc_calc k (take n s) / 256 % 256 in
    let kept : get_or (set (set s n low) (n + 1) high) i 0 ≡ get_or s i 0 =
      get_or-set_ne (set s n low) (n + 1) i high 0 (omega arith)
      ∙ get_or-set_ne s n i low 0 (omega arith) in
    ground (arith, kept)

recv_len-send_message :
    (k : Config) (n : ℕ) (holding s : List ℕ)
    → get_or s 0 0 ≢ k.broadcast
    → (send_message k n holding s).recv_len ≡ pos (n + 2)
unfolding send_message
recv_len-send_message k n holding s h = ground arith

pub read_answer : Config → List ℕ → ℕ → ℕ → List ℕ → List ℕ
read_answer k holding ptr n s =
    let answer = k.address ∷ 3 ∷ (n * 2) ∷ read_registers (read_holding holding) ptr n in
    take (n * 2 + 3) answer ++ drop (n * 2 + 3) s

read_request-eq :
    (k : Config) (holding s : List ℕ) (ptr n : ℕ)
    → IsRequest 3 ptr n s
    → ptr + n ≤ hold_registers
    → read_request k holding s ≡ send_message k (n * 2 + 3) holding (read_answer k holding ptr n s)
unfolding read_request read_answer
read_request-eq k holding s ptr n r fits =
    let p : u8 (word_at s 2) ≡ ptr = omega (arith, r.pointer) in
    let m : u8 (word_at s 4) ≡ n = omega (arith, r.number) in
    let d : u8 (n * 2) ≡ n * 2 = omega arith in
    let inside : ltb hold_registers (ptr + n) ≡ false = ground arith in rw (r.code, p, m, d, inside)

length-send_message :
    (k : Config) (n : ℕ) (holding s : List ℕ) → length (send_message k n holding s).bytes ≡ length s
unfolding send_message
length-send_message k n holding s =
    let low = crc_calc k (take n s) % 256 in
    let high = crc_calc k (take n s) / 256 % 256 in
    let size = length-set (set s n low) (n + 1) high ∙ length-set s n low in ground (arith, size)

pub read_request-room :
    (k : Config) (holding s : List ℕ) (ptr n : ℕ)
    → IsRequest 3 ptr n s
    → ptr + n ≤ hold_registers
    → 6 ≤ length (read_request k holding s).bytes
read_request-room k holding s ptr n r fits =
    let t = read_answer k holding ptr n s in
    let m = n * 2 + 3 in
    let answer = k.address ∷ 3 ∷ (n * 2) ∷ read_registers (read_holding holding) ptr n in
    let room = r.room in
    let size : 6 ≤ length t =
      unfold read_answer in
      omega (
        arith,
        length-append (take m answer) (drop m s),
        length-take m answer,
        length-drop m s,
        length-read_registers (read_holding holding) ptr n,
      ) in
    rw (read_request-eq k holding s ptr n r fits)
      (omega (arith, size, length-send_message k m holding t))

get_or-read_answer :
    (k : Config) (holding s : List ℕ) (ptr n i : ℕ)
    → i < n
    → word_at (read_answer k holding ptr n s) (3 + i * 2) ≡ get_or holding (ptr + i) 0
unfolding read_answer read_holding
get_or-read_answer k holding s ptr n i h =
    let regs = read_registers (read_holding holding) ptr n in
    let answer = k.address ∷ 3 ∷ (n * 2) ∷ regs in
    let m = n * 2 + 3 in
    let size : length (take m answer) ≡ m =
      omega (arith, length-take m answer, length-read_registers (read_holding holding) ptr n) in
    let one : (j : ℕ)
        → j < n * 2
        → get_or (take m answer ++ drop m s) (suc (suc (suc j))) 0 ≡ get_or regs j 0 =
      λ j b.
        get_or-append (take m answer) (drop m s) (suc (suc (suc j))) (omega (arith, size))
        ∙ get_or-take m answer (suc (suc (suc j))) (omega arith) in
    let three : 3 + i * 2 ≡ suc (suc (suc (i * 2))) = omega arith in
    let four : suc (suc (suc (i * 2))) + 1 ≡ suc (suc (suc (i * 2 + 1))) = omega arith in
    rw (three, four, one (i * 2) (omega arith), one (i * 2 + 1) (omega arith))
      (get_or-read_registers (read_holding holding) ptr n i h)

pub read_request-registers :
    (k : Config) (holding s : List ℕ) (ptr n i : ℕ)
    → IsRequest 3 ptr n s
    → k.address ≢ k.broadcast
    → ptr + n ≤ hold_registers
    → i < n
    → (word_at (read_request k holding s).bytes (3 + i * 2) ≡ get_or holding (ptr + i) 0)
      × ((read_request k holding s).recv_len ≡ pos (n * 2 + 5))
read_request-registers k holding s ptr n i r other fits h =
    let t = read_answer k holding ptr n s in
    let five : n * 2 + 5 ≡ n * 2 + 3 + 2 = omega arith in
    let head : get_or t 0 0 ≡ k.address =
      (let e : n * 2 + 3 ≡ suc (n * 2 + 2) = omega arith in unfold read_answer in rw e) in
    rw (read_request-eq k holding s ptr n r fits, five)
      (
        rw
            (
              get_or-send_message k (n * 2 + 3) holding t (3 + i * 2) (omega arith),
              get_or-send_message k (n * 2 + 3) holding t (3 + i * 2 + 1) (omega arith),
            )
            (get_or-read_answer k holding s ptr n i h),
        recv_len-send_message k (n * 2 + 3) holding t (rw head other),
      )

write_request-holding :
    (k : Config) (length' : ℕ) (holding s : List ℕ) (ptr value : ℕ)
    → IsRequest 6 ptr value s
    → ptr < hold_registers
    → (write_request k length' holding s).holding ≡ set holding ptr value
unfolding write_request write_holding send_message
write_request-holding k n holding s ptr value r fits =
    let inside : leb hold_registers (word_at s 2) ≡ false = ground (arith, r.pointer) in
    let v = r.number in let p = r.pointer in rw (inside, p, v) (ground arith)

-- After a request that writes one register in the table, a request that reads `n` registers from
-- `first` on, all in the table, is answered with `n` words: the value that was written where its
-- register is among them, and the other registers as they were before.
pub client_process-write_read :
    (k : Config) (length' length'' : ℕ) (holding s s' : List ℕ) (ptr value first n i : ℕ)
    → length holding ≡ hold_registers
    → k.address ≢ k.broadcast
    → IsRequest 6 ptr value s
    → IsRequest 3 first n s'
    → ptr < hold_registers
    → first + n ≤ hold_registers
    → i < n
    → let written = client_process k length' holding s in
      let read = client_process k length'' written.holding s' in
      (word_at read.bytes (3 + i * 2)
        ≡ (if first + i == ptr then value else get_or holding (first + i) 0))
      × (read.recv_len ≡ pos (n * 2 + 5))
unfolding client_process
client_process-write_read k l l' holding s s' ptr value first n i size other w r inside fits h =
    let step = write_request-holding k l holding s ptr value w inside in
    let later : get_or (set holding ptr value) (first + i) 0
        ≡ (if first + i == ptr then value else get_or holding (first + i) 0) =
      elim (Bool-cases (first + i == ptr)) [
        | inl y ↦
            let q : first + i ≡ ptr = (==_iff (first + i) ptr).0 y in
            rw (y, q) (get_or-set_self holding ptr value 0 (omega arith))
        | inr z ↦ rw z (get_or-set_ne holding ptr (first + i) value 0 (ground arith))
      ] in
    let read = read_request-registers k (set holding ptr value) s' first n i r other fits h in
    rw (w.code, r.code, step) (read.0 ∙ later, read.1)
