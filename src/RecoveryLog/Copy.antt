-- ===== src/RecoveryLog/Copy.antt =====
-- copyFixed of v2/pkg/recoverylog/playback.go, which copies through the reader's buffer.
pub mod Total
use gazette.Prelude.{
  ℕ, zero, suc, ◌+◌, ◌-◌, ◌^◌, Bool, true, false, Option, none, some, [], ◌++◌, Bytes, ◌==◌, leb,
  if◌then◌else◌, take,
}
use gazette.Message.Reader.{ReadError, Reader, min, peek, discard}

-- What has been written to the writer, or why the copy ended.
pub data Copied : Type 0 where
  copied : Bytes → Reader → Copied
  cut_short : ReadError → Copied
  write_failed copy_panics out_of_fuel : Copied

-- Whether an int64 with these bits is negative.
abbrev pub is_negative : ℕ → Bool
is_negative n = leb (2 ^ 63) n

abbrev pub negative_copy : Bytes × Option ReadError × Reader → Copied
negative_copy (b, some e, r) = cut_short e
negative_copy (b, none, r) = copy_panics

-- `writer` takes bytes after those it has been given: how many, and whether it failed. `extras` says
-- what each fill of the buffer brings past what is asked for.
module _ (writer : Bytes → Bytes → ℕ × Bool) where
  -- The rest of the loop after what the writer has returned.
  abbrev pub after_write :
      (Reader → ℕ → Bytes → Copied) → ℕ → Bytes → Bytes → Reader → ℕ × Bool → Copied
  after_write rest n out b r (wrote, true) = write_failed
  after_write rest n out b r (wrote, false) =
      rest (discard wrote r) (n - wrote) (out ++ take wrote b)

  -- By what Peek of the bytes in the buffer returned.
  abbrev pub after_peek :
      (Reader → ℕ → Bytes → Copied) → ℕ → Bytes → Bytes × Option ReadError × Reader → Copied
  after_peek rest n out (b, some e, r) = copy_panics
  after_peek rest n out (b, none, r) = after_write rest n out b r (writer out b)

  -- By what Peek of one byte returned.
  abbrev pub after_fill :
      (Reader → ℕ → Bytes → Copied) → ℕ → Bytes → Bytes × Option ReadError × Reader → Copied
  after_fill rest n out (b, some e, r) = cut_short e
  after_fill rest n out (b, none, r) = after_peek rest n out (peek (min r.held n) 0 r)

  unfoldable pub copy_fixed : ℕ → (ℕ → ℕ) → Reader → ℕ → Bytes → Copied
  unfolding peek
  copy_fixed zero extras r n out = elim (n == 0) [ true ↦ copied out r | false ↦ out_of_fuel ]
  copy_fixed (suc fuel) extras r n out = elim (n == 0) [
    | true ↦ copied out r
    | false ↦ after_fill (λ s m o. copy_fixed fuel extras s m o) n out (peek 1 (extras fuel) r)
  ]

  -- With the bits of an int64 as the length: a negative one has Peek of a negative count return an
  -- error, once there is a byte to copy.
  unfoldable pub copy_signed : (ℕ → ℕ) → Reader → ℕ → Copied
  unfolding copy_fixed peek
  copy_signed extras r size =
      if is_negative size
      then negative_copy (peek 1 (extras 0) r)
      else copy_fixed size extras r size []
