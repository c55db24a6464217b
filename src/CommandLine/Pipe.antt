-- ===== src/CommandLine/Pipe.antt =====
-- homecontrol/CommandLineManager.cpp, `run_CommandLine` outside Windows: the output of a command is
-- read from a pipe in pieces. What `popen` does is an argument: from the world and a command, all that
-- the command writes, or nothing (no pipe), and the world afterwards.
use homecontrol_server.Common.{
  ℕ, zero, suc, ◌≤◌, ◌≡◌, refl, ap, ◌∙◌, Text, [], ◌∷◌, ◌++◌, Option, none, some, ◌==◌,
  if◌then◌else◌, length, append-nil, append_assoc, arith, Bool-cases, inl, inr,
}
use homecontrol_server.StringTools.Lines.{Lacks}

-- `fgets` into a buffer with room for `n` characters: up to a newline, which is kept; and what is left.
pub fgets : ℕ → Text → Text × Text
fgets zero s = ([], s)
fgets (suc n) [] = ([], [])
fgets (suc n) (c ∷ s) =
    let (piece, rest) = fgets n s in if c == b'\n' then (c ∷ [], s) else (c ∷ piece, rest)

-- `result += buffer.data()` appends what stands before the first zero.
pub c_string : Text → Text
c_string [] = []
c_string (c ∷ s) = let rest = c_string s in if c == 0 then [] else c ∷ rest

-- The loop, with a buffer of 128 characters, one of which ends the string; on fuel.
pub read_pipe : ℕ → Text → Text → Option Text
unfolding fgets c_string
read_pipe n result [] = some result
read_pipe zero result (c ∷ s) = none
read_pipe (suc n) result (c ∷ s) =
    let (piece, rest) = fgets 127 (c ∷ s) in read_pipe n (result ++ c_string piece) rest

module _ {W : Type 0} (popen : W → Text → Option Text × W) where
  -- Each piece has a character at least.
  pub run_command_line : W → Text → Option Text × W
  unfolding read_pipe
  run_command_line w command =
      let (pipe, w') = popen w command in
      (elim pipe [ none ↦ none | some output ↦ read_pipe (length output) [] output ], w')

-- A piece and the rest spell the text.
fgets_spells : (n : ℕ) (s : Text) → (fgets n s).0 ++ (fgets n s).1 ≡ s
unfolding fgets
fgets_spells zero s = refl
fgets_spells (suc n) [] = refl
fgets_spells (suc n) (c ∷ s) = ground (arith, fgets_spells n s)

fgets-length : (n : ℕ) (s : Text) → length (fgets n s).1 ≤ length s
unfolding fgets
fgets-length zero s = omega arith
fgets-length (suc n) [] = omega arith
fgets-length (suc n) (c ∷ s) = ground (arith, fgets-length n s)

fgets_shortens :
    (k n c : ℕ) (s : Text) → length (c ∷ s) ≤ suc n → length (fgets (suc k) (c ∷ s)).1 ≤ n
unfolding fgets
fgets_shortens k n c s h = ground (arith, fgets-length k s)

fgets-Lacks : (n : ℕ) (s : Text) → Lacks 0 s → Lacks 0 (fgets n s).0 × Lacks 0 (fgets n s).1
unfolding fgets
fgets-Lacks zero s h = (tt, h)
fgets-Lacks (suc n) [] h = (tt, tt)
fgets-Lacks (suc n) (c ∷ s) h = elim (Bool-cases (c == b'\n')) [
  | inl e ↦ rw e ((h.0, tt), h.1)
  | inr e ↦ rw e (let (piece, rest) = fgets-Lacks n s h.1 in ((h.0, piece), rest))
]

c_string_all : (s : Text) → Lacks 0 s → c_string s ≡ s
unfolding c_string
c_string_all [] h = refl
c_string_all (c ∷ s) h = ground (arith, c_string_all s h.1, h.0)

read_pipe_all :
    (n : ℕ) (result s : Text) → Lacks 0 s → length s ≤ n → read_pipe n result s ≡ some (result ++ s)
unfolding read_pipe
read_pipe_all n result [] h f = rw append-nil refl
read_pipe_all zero result (c ∷ s) h f = absurd (omega arith)
read_pipe_all (suc n) result (c ∷ s) h f =
    let (piece, rest) = fgets-Lacks 127 (c ∷ s) h in
    read_pipe_all n _ (fgets 127 (c ∷ s)).1 rest (fgets_shortens 126 n c s f)
    ∙ rw (c_string_all (fgets 127 (c ∷ s)).0 piece) (
        ap some (
          append_assoc result (fgets 127 (c ∷ s)).0 (fgets 127 (c ∷ s)).1
          ∙ ap (λ t. result ++ t) (fgets_spells 127 (c ∷ s))))

read_pipe_total :
    (n : ℕ) (result s : Text) → length s ≤ n → (t : Text) × (read_pipe n result s ≡ some t)
unfolding read_pipe
read_pipe_total n result [] f = (result, refl)
read_pipe_total zero result (c ∷ s) f = absurd (omega arith)
read_pipe_total (suc n) result (c ∷ s) f =
    read_pipe_total n _ (fgets 127 (c ∷ s)).1 (fgets_shortens 126 n c s f)

-- What a command writes, if it writes no zero, is the result.
pub run_command_line_lem :
    {W : Type 0} (popen : W → Text → Option Text × W) (w w' : W) (command output : Text)
    → popen w command ≡ (some output, w')
    → Lacks 0 output
    → run_command_line popen w command ≡ (some output, w')
unfolding run_command_line
run_command_line_lem popen w w' command output h a =
    rw h (ap (λ r. (r, w')) (read_pipe_all (length output) [] output a (omega arith)))

-- Whatever a command writes, the loop ends with a result.
pub run_command_line_total :
    {W : Type 0} (popen : W → Text → Option Text × W) (w w' : W) (command output : Text)
    → popen w command ≡ (some output, w')
    → (result : Text) × (run_command_line popen w command ≡ (some result, w'))
unfolding run_command_line
run_command_line_total popen w w' command output h =
    let (result, e) = read_pipe_total (length output) [] output (omega arith) in
    (result, rw h (ap (λ r. (r, w')) e))
