-- ===== src/GrpcLoader/Buffer.antt =====
-- closeableBuffer, with close between the pieces of a Write.
--
-- Write holds the read lock from its test of `disabled` to its end, and close takes the write lock,
-- for which it waits while a Write holds the read lock. Two calls of Write would hold the read lock
-- together. That they come one after the other is what os/exec documents for a Stdout and a Stderr
-- that are the same writer, which is how startServer sets them, and it is part of the model.
use tools_jvm_autodeps.Base.{
  ◌≡◌, refl, sym, ap, ◌∙◌, Bool, true, false, Option, none, some, List, [], ◌∷◌, ◌++◌, append-nil,
  append_assoc, arith, is_some, ◌&&◌, if◌then◌else◌, Text, nat_eq, text_eq,
}

pub record CloseableBuffer : Type 0 where
  pub buf : Text
  pub disabled : Bool

-- Write takes the lock and makes its test, Write adds its bytes and gives the lock back, and close.
pub data Event : Type 0 where
  begin_write : Text → Event
  end_write close : Event

-- the buffer, and the bytes of the Write that holds the read lock
pub record Shared : Type 0 where
  pub buffer : CloseableBuffer
  pub writing : Option Text

abbrev pub begun : CloseableBuffer → Text → Shared
begun b p = record { buffer = b; writing = if b.disabled then none else some p }

-- what an event does, where `none` says that it cannot happen now
unfoldable pub step : Option Text → CloseableBuffer → Event → Option Shared
step none b (begin_write p) = some (begun b p)
step none b end_write = none
step none b close = some (record { buffer = record b { disabled = true }; writing = none })
step (some q) b (begin_write p) = none
step (some q) b end_write = some (record { buffer = record b { buf = b.buf ++ q }; writing = none })
step (some q) b close = none

unfoldable pub run : Shared → List Event → Option Shared
unfolding step
run s [] = some s
run s (event ∷ events) = elim (step s.writing s.buffer event) [
  | none ↦ none
  | some later ↦ run later events
]

abbrev pub new_buffer : Shared
new_buffer = record { buffer = record { buf = []; disabled = false }; writing = none }

-- what the calls of Write bring that begin before the first close
abbrev pub written : List Event → Text
written [] = []
written (begin_write p ∷ events) = p ++ written events
written (end_write ∷ events) = written events
written (close ∷ events) = []

abbrev pub closes : List Event → Bool
closes [] = false
closes (close ∷ events) = true
closes (_ ∷ events) = closes events

abbrev pub pending : Option Text → Text
pending none = []
pending (some p) = p

abbrev shared : CloseableBuffer → Option Text → Shared
shared b writing = record { buffer = b; writing = writing }

-- Nothing changes behind a close.
run_closed :
    (b : CloseableBuffer) (events : List Event) (t : Shared)
    → b.disabled ≡ true
    → run (shared b none) events ≡ some t
    → (t.buffer.buf ≡ b.buf) × (t.buffer.disabled ≡ true) × (t.writing ≡ none)
unfolding run step
run_closed b [] t h ran = (cc, cc, cc)
run_closed b (begin_write p ∷ events) t h ran =
    let same : begun b p ≡ shared b none = rw h refl in
    run_closed b events t h (ap (λ s. run s events) (sym same) ∙ ran)
run_closed b (end_write ∷ events) t h ran = cc
run_closed b (close ∷ events) t h ran = run_closed (record b { disabled = true }) events t refl ran

run_open :
    (b : CloseableBuffer) (writing : Option Text) (events : List Event) (t : Shared)
    → b.disabled ≡ false
    → run (shared b writing) events ≡ some t
    → (t.buffer.buf ++ pending t.writing ≡ (b.buf ++ pending writing) ++ written events)
      × (t.buffer.disabled ≡ closes events)
      × (closes events ≡ true → t.writing ≡ none)
unfolding run step
run_open b writing [] t h ran =
    let same : t ≡ shared b writing = cc in
    (
      ap (λ s. s.buffer.buf ++ pending s.writing) same
          ∙ sym (append-nil (b.buf ++ pending writing)),
      ap (λ s. s.buffer.disabled) same ∙ h,
      λ k. cc,
    )
run_open b none (begin_write p ∷ events) t h ran =
    let same : begun b p ≡ shared b (some p) = rw h refl in
    let (held, disabled, over) =
      run_open b (some p) events t h (ap (λ s. run s events) (sym same) ∙ ran) in
    (
      held
          ∙ append_assoc b.buf p (written events)
          ∙ ap (λ x. x ++ (p ++ written events)) (sym (append-nil b.buf)),
      disabled,
      over,
    )
run_open b none (end_write ∷ events) t h ran = cc
run_open b none (close ∷ events) t h ran =
    let (kept, disabled, over) = run_closed (record b { disabled = true }) events t refl ran in
    (
      ap (λ w. t.buffer.buf ++ pending w) over
          ∙ append-nil t.buffer.buf
          ∙ kept
          ∙ sym (append-nil b.buf)
          ∙ sym (append-nil (b.buf ++ [])),
      disabled,
      λ k. over,
    )
run_open b (some q) (begin_write p ∷ events) t h ran = cc
run_open b (some q) (end_write ∷ events) t h ran =
    let (held, disabled, over) = run_open (record b { buf = b.buf ++ q }) none events t h ran in
    (held ∙ ap (λ x. x ++ written events) (append-nil (b.buf ++ q)), disabled, over)
run_open b (some q) (close ∷ events) t h ran = cc

none_pending :
    (closed : Bool) (writing : Option Text)
    → (closed ≡ true → writing ≡ none)
    → (closed && is_some writing) ≡ false
none_pending closed writing h = ground arith

-- However a close falls between the pieces of the calls of Write, as the lock allows, the buffer holds
-- what the calls bring that begin before the first close, in their order, less the one that is still
-- to add its bytes. Behind a close there is none.
pub run-new_buffer :
    (events : List Event) (t : Shared)
    → run new_buffer events ≡ some t
    → (t.buffer.buf ++ pending t.writing ≡ written events)
      × (t.buffer.disabled ≡ closes events)
      × ((closes events && is_some t.writing) ≡ false)
run-new_buffer events t ran =
    let (held, disabled, over) =
      run_open (record { buf = []; disabled = false }) none events t refl ran in
    (held, disabled, none_pending (closes events) t.writing over)
