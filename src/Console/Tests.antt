-- ===== src/Console/Tests.antt =====
-- Runs of kernel/console.c.
use xv7_riscv.Console.{Console, console_handle_irq, read_from}
use xv7_riscv.Console.Reads.{Reads, console_read_lem}
use xv7_riscv.Console.Line.{IsValid, input}
use xv7_riscv.Console.Keys.{press, console_refines}
use xv7_riscv.Prelude.{◌≡◌, refl, true, false, [], ◌∷◌, arith, if◌then◌else◌, ◌==◌, ◌^◌, ◌-◌}

-- The indices are about to wrap around; "hi" is being typed.
abbrev half_line : Console
half_line = record {
  buf = λ i. if i == 1022 then 104 else if i == 1023 then 105 else 0;
  read_index = 2 ^ 32 - 2;
  write_index = 2 ^ 32 - 2;
  edit_index = 0;
}

half_line-IsValid : IsValid half_line
half_line-IsValid = omega arith

-- The newline makes the line readable.
abbrev entered : Console
entered = (console_handle_irq 13 half_line).0

read_run : (read_from 10 (λ _. true) false 10 entered).2 ≡ 104 ∷ 105 ∷ 10 ∷ []
unfolding read_from console_handle_irq
read_run = refl

console_refines_example : IsValid entered × (input entered ≡ press 13 (input half_line))
console_refines_example = console_refines 13 half_line half_line-IsValid

entered-IsValid : IsValid entered
entered-IsValid = (console_refines 13 half_line half_line-IsValid).0

console_read_lem_example :
    Reads 10 (λ _. true) false 10 entered (read_from 10 (λ _. true) false 10 entered)
console_read_lem_example =
    console_read_lem 10 (λ _. true) false 10 entered (omega arith) entered-IsValid
