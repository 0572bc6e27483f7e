-- ===== src/Kernel/Console/View.antt =====
-- The bytes that kernel/console.c keeps, as two lists: what readers may take and what is edited.
use os_homework_from_ykf.Prelude.{
  ℕ, ◌+◌, ◌-◌, ◌%◌, ◌^◌, ◌≤◌, ◌<◌, ◌≡◌, ◌≢◌, refl, ap, List, [], ◌∷◌, ◌++◌, arith, length, Bool,
  true, false, ◌||◌, ◌==◌, leb, if◌then◌else◌,
}
use os_homework_from_ykf.Kernel.Ring.{uint, window, NoClash}
use os_homework_from_ykf.Kernel.Console.{Cons, input_buf_size, control}

abbrev pub ready : Cons → ℕ
ready c = uint (c.w + 2 ^ 32 - c.r)

abbrev pub pending : Cons → ℕ
pending c = uint (c.e + 2 ^ 32 - c.w)

abbrev pub committed : Cons → List ℕ
committed c = window input_buf_size c.buf c.r (ready c)

abbrev pub edited : Cons → List ℕ
edited c = window input_buf_size c.buf c.w (pending c)

-- The counters are uints in the order r, w, e, at most a buffer apart, and the line that is edited
-- has no newline.
pub record IsValid (c : Cons) : Type 0 where
  pub r_word : c.r < 2 ^ 32
  pub w_word : c.w < 2 ^ 32
  pub e_word : c.e < 2 ^ 32
  pub room : ready c + pending c ≤ input_buf_size
  pub one_line : (i : ℕ) → i < pending c → c.buf (uint (c.w + i) % input_buf_size) ≢ 10

pub no_clash : NoClash input_buf_size
no_clash a k ha lo hi = omega arith

abbrev pub drop_last : List ℕ → List ℕ
drop_last [] = []
drop_last (x ∷ []) = []
drop_last (x ∷ y ∷ ys) = x ∷ drop_last (y ∷ ys)

pub drop_last-append : (xs : List ℕ) (x : ℕ) → drop_last (xs ++ (x ∷ [])) ≡ xs
drop_last-append [] x = refl
drop_last-append (y ∷ []) x = refl
drop_last-append (y ∷ z ∷ zs) x = ap (λ q. y ∷ q) (drop_last-append (z ∷ zs) x)

-- The abstract terminal: complete lines that wait for a reader, and the line that is edited.
pub record Line : Type 0 where
  pub waiting : List ℕ
  pub typed : List ℕ

abbrev pub view : Cons → Line
view c = record { waiting = committed c; typed = edited c }

-- A character that is no control character of the editor: `\r` counts as a newline, and a newline,
-- Control-D or the last free place completes the line.
abbrev pub type_text : Line → ℕ → Line × Bool
type_text l ch =
    if ch == 10 || ch == control b'D' || length l.waiting + length l.typed + 1 == input_buf_size
    then (record { waiting = l.waiting ++ (l.typed ++ (ch ∷ [])); typed = [] }, true)
    else (record l { typed = l.typed ++ (ch ∷ []) }, false)

-- What a character does to the terminal, and whether a line is complete.
unfoldable pub type_char : Line → ℕ → Line × Bool
type_char l ch =
    if ch == control b'P'
    then (l, false)
    else if ch == control b'U'
    then (record l { typed = [] }, false)
    else if ch == control b'H' || ch == 127
    then (record l { typed = drop_last l.typed }, false)
    else if ch == 0 || leb input_buf_size (length l.waiting + length l.typed)
    then (l, false)
    else type_text l (if ch == 13 then 10 else ch)
