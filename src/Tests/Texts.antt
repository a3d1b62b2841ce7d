-- ===== src/Tests/Texts.antt =====
-- Texts of user programs.
use riem_os.Base.{
  ◌≤◌, ◌⊎◌, ◌-◌, ◌^◌, ◌+◌, ℕ, ◌<◌, ◌≡◌, inr, refl, some, arith, true, false, update, ltb,
  if◌then◌else◌,
}
use riem_os.Memory.Ram.{Bytes}
use riem_os.Strings.{safestrcpy}
use riem_os.Strings.Bounds.{Terminated, safestrcpy-Terminated}
use riem_os.Ulib.{strcmp, atoi}
use riem_os.Ulib.Text.{Stops, strcmp-Stops}
use riem_os.Pipe.{Pipe, used, piperead, pipewrite}
use riem_os.Pipe.Steps.{waiting}
use riem_os.Pipe.Fifo.{pipewrite-piperead}
use riem_os.Print.{print_num}
use riem_os.Print.Digits.{Written}
use riem_os.Print.Layout.{laid_out, signed, with_sign, print_num-laid_out}
use riem_os.Print.Atoi.{atoi-print_num}

abbrev blank : Bytes
blank p = 0

-- "ab" at 10, "ac" at 20, and "hi\n" at 30
abbrev texts : Bytes
texts =
    update
      (update (update (update (update (update (update blank 10 97) 11 98) 20 97) 21 99) 30 104) 31
        105)
      32 10

strcmp-Stops_example : Stops texts 10 20 2 (strcmp 3 texts 10 20)
strcmp-Stops_example = strcmp-Stops 3 texts 10 20 2 (omega arith) refl (λ j h. ground arith)

safestrcpy-Terminated_example : Terminated texts (safestrcpy texts 50 10 2) 50 2
safestrcpy-Terminated_example = safestrcpy-Terminated texts 50 10 2 (omega arith)

-- -00042 in a width of 6
print_num-laid_out_example :
    (text put : Bytes) × (n : ℕ) × (print_num blank 42 10 true 6 false 48 false ≡ some text)
    × Written blank 0 42 10 false put n
    × ((q : ℕ)
        → text q
          ≡ laid_out
              (signed put n true)
              (with_sign n true)
              true
              (if ltb 6 (with_sign n true) then with_sign n true else 6)
              false
              48
              q)
print_num-laid_out_example =
    print_num-laid_out blank 42 10 true 6 false 48 false (omega arith) (omega arith) (omega arith)
      (omega arith) (λ p. omega arith)

atoi-print_num_example :
    (text : Bytes) × (size : ℕ) × (print_num blank 1234 10 false 8 false 48 false ≡ some text)
    × ((fuel : ℕ) → size < fuel → atoi fuel text 0 ≡ some 1234)
atoi-print_num_example =
    atoi-print_num blank 1234 8 false 48 (omega arith) (omega arith) (inr refl) (λ p. omega arith)

-- A pipe with one byte, at the end of the positions.
abbrev pipe : Pipe
pipe = record { rpos = 2 ^ 32 - 2; wpos = 2 ^ 32 - 1; buf = update blank 30 65 }

abbrev idle : ℕ → Pipe → Pipe
idle t p = p

abbrev both_open : ℕ → ℕ × ℕ
both_open t = (1, 2)

pipewrite-piperead_example :
    (p1 p2 : Pipe) × (m' : Bytes) × (pipewrite idle both_open 40 pipe texts 10 2 ≡ some (2, p1))
    × (piperead idle both_open 40 p1 texts 50 8 ≡ some (used pipe + 2, m', p2))
    × (used p2 ≡ 0)
    × ((j : ℕ) → j < used pipe → m' (50 + j) ≡ waiting pipe j)
    × ((j : ℕ) → j < 2 → m' (50 + (used pipe + j)) ≡ texts (10 + j))
    × ((q : ℕ) → (q < 50) ⊎ (50 + (used pipe + 2) ≤ q) → m' q ≡ texts q)
pipewrite-piperead_example =
    pipewrite-piperead idle both_open 40 pipe texts 10 2 50 8
      (omega arith, omega arith, omega arith) (λ q. ground arith) (λ q. ground arith) (omega arith)
      (omega arith) (omega arith) (omega arith)
