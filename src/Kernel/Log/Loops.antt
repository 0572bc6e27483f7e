-- ===== src/Kernel/Log/Loops.antt =====
-- The loops of write_log and install_trans in kernel/log.c, and the numbers of the logged blocks.
use os_homework_from_ykf.Prelude.{
  ℕ, zero, suc, ◌+◌, ◌≤◌, ◌<◌, ◌≡◌, ◌≢◌, refl, sym, ap, ◌∙◌, Bool, true, false, ◌==◌, if◌then◌else◌,
  ◌∷◌, arith, ℕ_discrete,
}
use os_homework_from_ykf.Kernel.Log.{
  Block, put, platter, Buffers, set_data, bwrite, bunpin, Log, write_log_loop, install_loop,
}

-- Whether `b` is one of the numbers block[i], block[i + 1], … of the next `left` entries.
abbrev pub is_logged : (ℕ → ℕ) → ℕ → ℕ → ℕ → Bool
is_logged block b i zero = false
is_logged block b i (suc left) = if block i == b then true else is_logged block b (i + 1) left

pub is_logged-congr :
    (block block' : ℕ → ℕ) (b i left : ℕ)
    → ((j : ℕ) → i ≤ j → j < i + left → block j ≡ block' j)
    → is_logged block b i left ≡ is_logged block' b i left
is_logged-congr block block' b i zero h = refl
is_logged-congr block block' b i (suc left) h = ground (
  arith,
  h i (omega arith) (omega arith),
  is_logged-congr block block' b (i + 1) left (λ j p q. h j (omega arith) (omega arith)),
)

pub is_logged-eq-false :
    (block : ℕ → ℕ) (b i left : ℕ)
    → ((j : ℕ) → i ≤ j → j < i + left → block j ≢ b)
    → is_logged block b i left ≡ false
is_logged-eq-false block b i zero h = refl
is_logged-eq-false block b i (suc left) h = ground (
  arith,
  h i (omega arith) (omega arith),
  is_logged-eq-false block b (i + 1) left (λ j p q. h j (omega arith) (omega arith)),
)

pub put_self {ℓ} : {A : Type ℓ} (f : ℕ → A) (i : ℕ) (v : A) → put f i v i ≡ v
put_self f i v = let e : (i == i) ≡ true = ground arith in rw e

pub put_ne {ℓ} : {A : Type ℓ} (f : ℕ → A) (i j : ℕ) (v : A) → i ≢ j → put f i v j ≡ f j
put_ne f i j v h = let e : (j == i) ≡ false = ground arith in rw e

-- One round of write_log.
abbrev pub log_one : Log → Buffers → ℕ → Buffers
log_one lg bs tail =
    let to = lg.start + tail + 1 in bwrite (set_data bs to (bs.cache (lg.lh.block tail))) to

-- One round of install_trans.
abbrev pub install_one : Bool → Log → Buffers → ℕ → Buffers
install_one recovering lg bs tail =
    let dbuf = lg.lh.block tail in
    let bs' = bwrite (set_data bs dbuf (bs.cache (lg.start + tail + 1))) dbuf in
    if recovering then bs' else bunpin bs' dbuf

install_one-cache :
    (recovering : Bool) (lg : Log) (bs : Buffers) (tail b : ℕ)
    → lg.lh.block tail ≢ b
    → (install_one recovering lg bs tail).cache b ≡ bs.cache b
install_one-cache true lg bs tail b ne = ground arith
install_one-cache false lg bs tail b ne = ground arith

install_one-writes :
    (recovering : Bool) (lg : Log) (bs : Buffers) (tail : ℕ)
    → (install_one recovering lg bs tail).writes
      ≡ (lg.lh.block tail, bs.cache (lg.start + tail + 1)) ∷ bs.writes
install_one-writes true lg bs tail =
    ap (λ v. (lg.lh.block tail, v) ∷ bs.writes)
      (put_self bs.cache (lg.lh.block tail) (bs.cache (lg.start + tail + 1)))
install_one-writes false lg bs tail =
    ap (λ v. (lg.lh.block tail, v) ∷ bs.writes)
      (put_self bs.cache (lg.lh.block tail) (bs.cache (lg.start + tail + 1)))

module _ (disk : ℕ → Block) (lg : Log) where
  -- The entries from `tail` on name no block of the log's body.
  abbrev pub BodyApart : ℕ → ℕ → Type 0
  BodyApart lo hi = (i j : ℕ) → lo ≤ i → i < hi → lo ≤ j → j < hi → lg.lh.block i ≢ lg.start + j + 1

  -- With the body holding `c` of the blocks named, install_trans writes `c` to those blocks and
  -- nothing to any other.
  pub install_loop_lem :
      (recovering : Bool) (bs : Buffers) (c : ℕ → Block) (tail left : ℕ)
      → BodyApart tail (tail + left)
      → ((i : ℕ) → tail ≤ i → i < tail + left → bs.cache (lg.start + i + 1) ≡ c (lg.lh.block i))
      → (b : ℕ)
      → platter disk (install_loop recovering lg bs tail left).writes b
        ≡ (if is_logged lg.lh.block b tail left then c b else platter disk bs.writes b)
  unfolding install_loop
  install_loop_lem recovering bs c tail zero apart copies b = refl
  install_loop_lem recovering bs c tail (suc left) apart copies b =
      let bs' = install_one recovering lg bs tail in
      ground (
        arith,
        install_loop_lem recovering bs' c (tail + 1) left
            (λ i j p q r s. apart i j (omega arith) (omega arith) (omega arith) (omega arith))
            (λ i p q.
              install_one-cache recovering lg bs tail (lg.start + i + 1)
                (apart tail i (omega arith) (omega arith) (omega arith) (omega arith))
              ∙ copies i (omega arith) (omega arith))
            b,
        install_one-writes recovering lg bs tail,
        copies tail (omega arith) (omega arith),
      )

  -- write_log copies the cached contents of the named blocks to the log's body, in the cache and on
  -- disk, and changes nothing outside the body.
  pub record Logged (bs bs' : Buffers) (tail left : ℕ) : Type 0 where
    pub body :
        (i : ℕ)
        → tail ≤ i
        → i < tail + left
        → (bs'.cache (lg.start + i + 1) ≡ bs.cache (lg.lh.block i))
          × (platter disk bs'.writes (lg.start + i + 1) ≡ bs.cache (lg.lh.block i))
    pub rest :
        (b : ℕ)
        → ((i : ℕ) → tail ≤ i → i < tail + left → b ≢ lg.start + i + 1)
        → (bs'.cache b ≡ bs.cache b) × (platter disk bs'.writes b ≡ platter disk bs.writes b)

  log_one_self :
      (bs : Buffers) (tail : ℕ)
      → ((log_one lg bs tail).cache (lg.start + tail + 1) ≡ bs.cache (lg.lh.block tail))
        × (platter disk (log_one lg bs tail).writes (lg.start + tail + 1)
            ≡ bs.cache (lg.lh.block tail))
  log_one_self bs tail =
      let e = put_self bs.cache (lg.start + tail + 1) (bs.cache (lg.lh.block tail)) in
      (e, put_self (platter disk bs.writes) (lg.start + tail + 1) _ ∙ e)

  log_one_ne :
      (bs : Buffers) (tail b : ℕ)
      → lg.start + tail + 1 ≢ b
      → ((log_one lg bs tail).cache b ≡ bs.cache b)
        × (platter disk (log_one lg bs tail).writes b ≡ platter disk bs.writes b)
  log_one_ne bs tail b ne =
      (put_ne bs.cache (lg.start + tail + 1) b _ ne, put_ne (platter disk bs.writes) _ b _ ne)

  pub write_log_loop_lem :
      (bs : Buffers) (tail left : ℕ)
      → BodyApart tail (tail + left)
      → Logged bs (write_log_loop lg bs tail left) tail left
  unfolding write_log_loop
  write_log_loop_lem bs tail zero apart = record {
    body = λ i p q. absurd (omega arith);
    rest = λ b h. (refl, refl);
  }
  write_log_loop_lem bs tail (suc left) apart =
      let ih =
        write_log_loop_lem (log_one lg bs tail) (tail + 1) left
          (λ i j p q r s. apart i j (omega arith) (omega arith) (omega arith) (omega arith)) in
      record {
        body = λ i p q. elim (ℕ_discrete i tail) [
          | yes e ↦
              let (a, b) = ih.rest (lg.start + tail + 1) (λ j r s. omega arith) in
              let (a', b') = log_one_self bs tail in rw e (a ∙ a', b ∙ b')
          | no ne ↦
              let (a, b) = ih.body i (omega arith) (omega arith) in
              let (a', b') = log_one_ne bs tail (lg.lh.block i) (λ e.
                apart i tail (omega arith) (omega arith) (omega arith) (omega arith) (sym e)) in
              (a ∙ a', b ∙ a')
        ];
        rest = λ b h.
            let (a, c) = ih.rest b (λ j r s. h j (omega arith) (omega arith)) in
            let (a', c') = log_one_ne bs tail b (λ e. h tail (omega arith) (omega arith) (sym e)) in
            (a ∙ a', c ∙ c');
      }
