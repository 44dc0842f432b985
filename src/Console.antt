-- ===== src/Console.antt =====
-- The input of kernel/console.c. `console.lock` makes each function here one step; the bytes come from
-- the UART, and `uart_put_nosleep` is where an echo goes.
pub mod Window
pub mod Line
pub mod Reads
pub mod Keys
mod Tests
use xv7_riscv.Prelude.{
  ℕ, zero, suc, ◌+◌, ◌-◌, ◌%◌, ◌^◌, ◌==◌, ltb, Bool, not, ◌&&◌, ◌||◌, if◌then◌else◌, update, List,
  [], ◌∷◌, ◌++◌, map,
}

-- INPUT_BUF_SIZE, BACKSPACE, and the bytes with a meaning: C('P'), DEL, return and newline
abbrev pub input_buf_size : ℕ
input_buf_size = 1024

abbrev pub backspace : ℕ
backspace = 0x100

abbrev pub control_p : ℕ
control_p = 16

abbrev pub del : ℕ
del = 127

abbrev pub carriage_return : ℕ
carriage_return = 13

abbrev pub newline : ℕ
newline = 10

pub record Console : Type 0 where
  pub buf : ℕ → ℕ
  pub read_index : ℕ
  pub write_index : ℕ
  pub edit_index : ℕ

-- What the handler does besides: it sends a byte, prints the processes, or wakes the readers.
pub data Event : Type 0 where
  sends : ℕ → Event
  dumps wakes : Event

unfoldable pub console_put : ℕ → List Event
console_put c = if c == backspace then map sends (8 ∷ 32 ∷ 8 ∷ []) else sends c ∷ []

-- A difference of indices, which are 32-bit numbers.
abbrev pub distance : ℕ → ℕ → ℕ
distance to from = (to + 2 ^ 32 - from) % 2 ^ 32

-- The byte that is stored for c
abbrev pub translated : ℕ → ℕ
translated c = if c == carriage_return then newline else c

abbrev pub put_byte : ℕ → Console → Console
put_byte c s = record s {
  buf = update s.buf (s.edit_index % input_buf_size) c;
  edit_index = (s.edit_index + 1) % 2 ^ 32;
}

-- The end of the default case
abbrev pub commit : ℕ → Console → Console × List Event
commit c s =
    if (c == newline) || (distance s.edit_index s.read_index == input_buf_size)
    then (record s { write_index = s.edit_index }, wakes ∷ [])
    else (s, [])

unfoldable pub store : ℕ → Console → Console × List Event
unfolding console_put
store c s =
    let done = commit (translated c) (put_byte (translated c) s) in
    (done.0, console_put (translated c) ++ done.1)

unfoldable pub erase : Console → Console × List Event
unfolding console_put
erase s =
    if not (s.edit_index == s.write_index)
    then (record s { edit_index = (s.edit_index + (2 ^ 32 - 1)) % 2 ^ 32 }, console_put backspace)
    else (s, [])

-- `c` is a byte, as the UART gives it.
unfoldable pub console_handle_irq : ℕ → Console → Console × List Event
unfolding store erase
console_handle_irq c s =
    if c == control_p
    then (s, dumps ∷ [])
    else if c == del
    then erase s
    else if not (c == 0) && ltb (distance s.edit_index s.read_index) input_buf_size
    then store c s
    else (s, [])

-- How `console_read` ends: with a result, or asleep with the bytes that it still wants.
pub data Exit : Type 0 where
  returned : ℕ → Exit
  failed : Exit
  sleeping : ℕ → Exit

-- The rounds of `console_read` for n bytes more of target, up to a sleep. `copied i` tells whether
-- `copy_to_user` stores byte i; the list is what it stores.
module _ (target : ℕ) (copied : ℕ → Bool) (killed : Bool) where
  unfoldable pub read_from : ℕ → Console → Exit × Console × List ℕ
  read_from zero s = (returned target, s, [])
  read_from (suc n) s =
      let c = s.buf (s.read_index % input_buf_size) in
      let s1 = record s { read_index = (s.read_index + 1) % 2 ^ 32 } in
      let (e, s2, cs) = read_from n s1 in
      if s.read_index == s.write_index
      then (if killed then failed else sleeping (suc n), s, [])
      else if not (copied (target - suc n))
      then (returned (target - suc n), s1, [])
      else if c == newline
      then (returned (target - n), s1, c ∷ [])
      else (e, s2, c ∷ cs)
