-- ===== src/Kernel/Console/Typing.antt =====
-- The default case of consoleintr of kernel/console.c, and the whole handler, against the abstract
-- terminal of `View`.
use os_homework_from_ykf.Prelude.{
  ℕ, suc, ◌+◌, ◌-◌, ◌%◌, ◌^◌, ◌<◌, ◌≡◌, ◌≢◌, refl, sym, ap, ap₂, ◌∙◌, Bool, true, false, ◌||◌, ◌==◌,
  ltb, leb, if◌then◌else◌, [], ◌∷◌, ◌++◌, arith, length, Memory, write, Bool-cases, inl, inr,
  dec_lt,
}
use os_homework_from_ykf.Kernel.Ring.{
  uint, window, length-window, window-add, window-write, window-write_outside,
}
use os_homework_from_ykf.Kernel.Console.{
  Cons, input_buf_size, control, consputc, Handled, store_char, consoleintr,
}
use os_homework_from_ykf.Kernel.Console.View.{
  ready, pending, committed, edited, IsValid, no_clash, view, type_text, type_char,
}
use os_homework_from_ykf.Kernel.Console.Edit.{Shows, erase_char_lem, kill_line_lem}

length-committed : (c : Cons) → length (committed c) ≡ ready c
length-committed c = length-window input_buf_size c.buf c.r (ready c)

length-edited : (c : Cons) → length (edited c) ≡ pending c
length-edited c = length-window input_buf_size c.buf c.w (pending c)

module _ (c : Cons) (v : IsValid c) (ch : ℕ) where
  buf' : Memory
  buf' = write c.buf (c.e % input_buf_size) ch

  stored : Cons
  stored = record c { buf = buf'; e = uint (c.e + 1) }

  committed-stored : ready c + pending c < input_buf_size → committed stored ≡ committed c
  unfolding stored buf'
  committed-stored free =
      window-write_outside input_buf_size no_clash c.buf c.r (ready c) (pending c)
        (c.e % input_buf_size) ch v.r_word free (omega arith)

  edited-stored : ready c + pending c < input_buf_size → edited stored ≡ edited c ++ (ch ∷ [])
  unfolding stored buf'
  edited-stored free =
      let e : pending stored ≡ suc (pending c) = omega arith in
      ap (window input_buf_size buf' c.w) e
      ∙ window-write input_buf_size no_clash c.buf c.w (pending c) (c.e % input_buf_size) ch
          v.w_word (omega arith) (omega arith)

  stored-IsValid : ch ≢ 10 → ready c + pending c < input_buf_size → IsValid stored
  unfolding stored buf'
  stored-IsValid text free = record {
    r_word = v.r_word;
    w_word = v.w_word;
    e_word = omega arith;
    room = omega arith;
    one_line = λ i lt. elim (dec_lt i (pending c)) [
      | yes old ↦ ground (arith, v.one_line i old)
      | no new ↦ ground arith
    ];
  }

  -- The line ends with this character.
  ended : Cons
  ended = record c { buf = buf'; e = uint (c.e + 1); w = uint (c.e + 1) }

  ended-IsValid : ready c + pending c < input_buf_size → IsValid ended
  unfolding ended buf'
  ended-IsValid free = record {
    r_word = v.r_word;
    w_word = omega arith;
    e_word = omega arith;
    room = omega arith;
    one_line = λ i lt. absurd (omega arith);
  }

  edited-ended : edited ended ≡ []
  unfolding ended buf'
  edited-ended =
      let e : pending ended ≡ 0 = omega arith in ap (window input_buf_size buf' (uint (c.e + 1))) e

  committed-ended :
      ready c + pending c < input_buf_size
      → committed ended ≡ committed c ++ (edited c ++ (ch ∷ []))
  unfolding ended buf' stored
  committed-ended free =
      let e : ready ended ≡ ready c + (pending c + 1) = omega arith in
      let e' : uint (c.r + ready c) ≡ c.w = omega arith in
      let e'' : pending stored ≡ pending c + 1 = omega arith in
      ap (window input_buf_size buf' c.r) e
      ∙ window-add input_buf_size buf' c.r (ready c) (pending c + 1) v.r_word
      ∙ ap₂ ◌++◌ (committed-stored free)
          (ap₂ (window input_buf_size buf') e' (sym e'') ∙ edited-stored free)

-- The branch of store_char that stores the character `x`.
stored_line : Cons → ℕ → Handled
stored_line c x =
    let e' = uint (c.e + 1) in
    let buf' = write c.buf (c.e % input_buf_size) x in
    if x == 10 || x == control b'D' || uint (e' + 2 ^ 32 - c.r) == input_buf_size
    then record {
      cons = record c { buf = buf'; e = e'; w = e' };
      echo = consputc x;
      woken = true;
      dumped = false;
    }
    else record {
      cons = record c { buf = buf'; e = e' };
      echo = consputc x;
      woken = false;
      dumped = false;
    }

stored_line_lem :
    (c : Cons)
    → IsValid c
    → (x : ℕ) → ready c + pending c < input_buf_size
    → Shows (stored_line c x) (type_text (view c) x)
unfolding stored_line ended stored buf'
stored_line_lem c v x free = elim (Bool-cases ends) [
  | inl yes' ↦
      rw (same, yes')
        (record {
          valid = ended-IsValid c v x free;
          shown =
              ap₂ (λ a b. record { waiting = a; typed = b }) (committed-ended c v x free)
                (edited-ended c v x);
          woken = refl;
        })
  | inr no' ↦
      rw (same, no')
        (record {
          valid = stored-IsValid c v x (ground arith) free;
          shown =
              ap₂ (λ a b. record { waiting = a; typed = b }) (committed-stored c v x free)
                (edited-stored c v x free);
          woken = refl;
        })
]
  where
    ends : Bool
    ends =
        x == 10
        || x == control b'D'
        || length (committed c) + length (edited c) + 1 == input_buf_size

    same :
        (x == 10 || x == control b'D' || uint (uint (c.e + 1) + 2 ^ 32 - c.r) == input_buf_size)
        ≡ ends
    same = ground (arith, length-committed c, length-edited c)

store_char-eq :
    (c : Cons)
    → IsValid c
    → (ch : ℕ) → ch < 256
    → ch ≢ 0
    → ready c + pending c < input_buf_size
    → store_char c ch ≡ stored_line c (if ch == 13 then 10 else ch)
unfolding store_char stored_line
store_char-eq c v ch byte nz free =
    let plain : (ch == 0) ≡ false = ground arith in
    let room : ltb (uint (c.e + 2 ^ 32 - c.r)) input_buf_size ≡ true = ground arith in
    let small : (if ch == 13 then 10 else ch) % 256 ≡ (if ch == 13 then 10 else ch) =
      ground arith in
    rw (plain, room, small)

store_char-full :
    (c : Cons)
    → IsValid c
    → (ch : ℕ) → (ch == 0 || leb input_buf_size (length (committed c) + length (edited c))) ≡ true
    → store_char c ch ≡ record { cons = c; echo = []; woken = false; dumped = false }
unfolding store_char
store_char-full c v ch h = ground (arith, length-committed c, length-edited c)

-- For a valid console and any byte, consoleintr keeps the console valid, and does to its lines what
-- the abstract terminal does: erasing and killing touch the edited line alone, and a reader is woken
-- exactly when the line is complete.
pub consoleintr_refines :
    (c : Cons) (ch : ℕ) → IsValid c → ch < 256 → Shows (consoleintr c ch) (type_char (view c) ch)
unfolding consoleintr type_char
consoleintr_refines c ch v byte = elim (Bool-cases (ch == control b'P')) [
  | inl p ↦ rw p (record { valid = v; shown = refl; woken = refl })
  | inr not_p ↦ elim (Bool-cases (ch == control b'U')) [
    | inl u ↦ rw (not_p, u) (kill_line_lem c v)
    | inr not_u ↦ elim (Bool-cases (ch == control b'H' || ch == 127)) [
      | inl h ↦ rw (not_p, not_u, h) (erase_char_lem c v)
      | inr not_h ↦ elim (Bool-cases full) [
        | inl stop ↦
            rw (not_p, not_u, not_h, stop, store_char-full c v ch stop)
              (record { valid = v; shown = refl; woken = refl })
        | inr go ↦
            let free : ready c + pending c < input_buf_size =
              ground (arith, length-committed c, length-edited c) in
            rw (not_p, not_u, not_h, go, store_char-eq c v ch byte (ground arith) free)
              (stored_line_lem c v (if ch == 13 then 10 else ch) free)
      ]
    ]
  ]
]
  where
    full : Bool
    full = ch == 0 || leb input_buf_size (length (committed c) + length (edited c))
