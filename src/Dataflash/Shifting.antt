-- ===== src/Dataflash/Shifting.antt =====
-- The root node with a node inserted by `fs_create` (firmware/dataflash/fs.c), before its commit.
use matemat.Base.{
  ℕ, zero, suc, ◌+◌, ◌-◌, ◌*◌, ◌≤◌, ◌<◌, ◌≡◌, refl, sym, ap, ◌∙◌, inl, inr, ◌==◌, ==_iff,
  Bool-cases, arith, List, length, length-take, length-drop, drop,
}
use matemat.Dataflash.{
  Flash, Fs, df_buf1, df_buf_write, df_buf_load, df_flash_read, slice, splice, nodetable_offset,
  page_address,
}
use matemat.Dataflash.Directory.{read_node, write_node, shift_up}
use matemat.Dataflash.Bytes.{length-splice, slice-splice_self, slice-splice_below}

-- The root node after `n` nodes from `index` on have been written behind their places.
pub record Shifted (fs : Fs) (index n : ℕ) (f f' : Flash) : Type 0 where
  size : length f'.buf1 ≡ 528
  memory : f'.memory ≡ f.memory
  marks : f'.buf2 ≡ f.buf2
  below : (i m : ℕ) → i + m ≤ 48 + index * 8 → slice f'.buf1 i m ≡ slice f.buf1 i m
  moved : (p : ℕ) → index ≤ p → p < index + n → slice f'.buf1 (40 + (p + 1) * 8) 8 ≡ read_node fs p

length-read_node :
    (fs : Fs) (i : ℕ)
    → length (fs.flash.memory (page_address fs.root)) ≡ 528
    → i ≤ 59
    → length (read_node fs i) ≡ 8
unfolding read_node df_flash_read
length-read_node fs i l h =
    let s = fs.flash.memory (page_address fs.root) in
    omega (arith, length-take 8 (drop (40 + i * 8) s), length-drop (40 + i * 8) s)

shift_up-Shifted :
    (n : ℕ) (fs : Fs) (index : ℕ) (f : Flash)
    → length (fs.flash.memory (page_address fs.root)) ≡ 528
    → length f.buf1 ≡ 528
    → index + n ≤ 59
    → Shifted fs index n f (shift_up n fs index f)
unfolding shift_up write_node df_buf_write
shift_up-Shifted zero fs index f l s h = record {
  size = s;
  memory = refl;
  marks = refl;
  below = λ i m b. refl;
  moved = λ p b c. absurd (omega arith);
}
shift_up-Shifted (suc n) fs index f l s h =
    let node = read_node fs index in
    let at = nodetable_offset + (index + 1) * 8 in
    let len : length node ≡ 8 = length-read_node fs index l (omega arith) in
    let next = splice f.buf1 at node in
    let size : length next ≡ 528 = length-splice f.buf1 at node (omega arith) ∙ s in
    let ih = shift_up-Shifted n fs (index + 1) (record f { buf1 = next }) l size (omega arith) in
    record {
      size = ih.size;
      memory = ih.memory;
      marks = ih.marks;
      below = λ i m b.
          ih.below i m (omega arith)
          ∙ slice-splice_below f.buf1 at node i m (omega arith) (omega arith);
      moved = λ p b c. elim (Bool-cases (p == index)) [
        | inl y ↦
            (let e = (==_iff p index).0 y in
              rw e (
                ih.below at 8 (omega arith)
                ∙ ap (slice next at) (sym len)
                ∙ slice-splice_self f.buf1 at node (omega arith)))
        | inr o ↦ ih.moved p (ground arith) (omega arith)
      ];
    }

-- The root node in buffer 1 before the commit.
module _ (fs : Fs) (x max : ℕ) (node : List ℕ) where
  unfoldable pub entered : Flash
  entered = shift_up (max - x) fs x (write_node node x (df_buf_load df_buf1 fs.root fs.flash))

  pub record Entered : Type 0 where
    pub size : length entered.buf1 ≡ 528
    pub memory : entered.memory ≡ fs.flash.memory
    pub marks : entered.buf2 ≡ fs.flash.buf2
    pub below :
        (i n : ℕ)
        → i + n ≤ 40 + x * 8
        → slice entered.buf1 i n ≡ slice (fs.flash.memory (page_address fs.root)) i n
    pub at : slice entered.buf1 (40 + x * 8) 8 ≡ node
    pub moved : (p : ℕ) → x ≤ p → p < max → slice entered.buf1 (40 + (p + 1) * 8) 8 ≡ read_node fs p

  pub entered-Entered :
      length (fs.flash.memory (page_address fs.root)) ≡ 528
      → length node ≡ 8
      → x ≤ max
      → max ≤ 59
      → Entered
  unfolding entered write_node df_buf_write df_buf_load
  entered-Entered l m h b =
      let s = fs.flash.memory (page_address fs.root) in
      let at = nodetable_offset + x * 8 in
      let next = splice s at node in
      let f = record fs.flash { buf1 = next } in
      let size : length next ≡ 528 = length-splice s at node (omega arith) ∙ l in
      let shifted = shift_up-Shifted (max - x) fs x f l size (omega arith) in
      record {
        size = shifted.size;
        memory = shifted.memory;
        marks = shifted.marks;
        below = λ i n c.
            shifted.below i n (omega arith)
            ∙ slice-splice_below s at node i n (omega arith) (omega arith);
        at =
            shifted.below at 8 (omega arith)
            ∙ ap (slice next at) (sym m)
            ∙ slice-splice_self s at node (omega arith);
        moved = λ p c d. shifted.moved p c (omega arith);
      }
