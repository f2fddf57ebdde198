-- ===== src/Source/Truncation.antt =====
-- internal/source/rds/fetcher.go: the notice that RDS appends when a response meets its 1 MB cap.
pub mod Notice
use rdstail.Prelude.{
  ℕ, suc, ◌-◌, ◌+◌, Bool, ◌&&◌, Option, none, some, [], ◌∷◌, Bytes, codes, same, leb, length, drop,
  take, ◌==◌, if◌then◌else◌,
}
use rdstail.Text.{last_index_byte}

abbrev pub truncation_notice : Bytes
truncation_notice = codes "[Your log message was truncated]"

-- strings.TrimRight(s, "\n")
unfoldable pub trim_newlines : Bytes → Bytes
trim_newlines [] = []
trim_newlines (x ∷ s) = elim (trim_newlines s) [
  | [] ↦ if x == b'\n' then [] else x ∷ []
  | y ∷ t ↦ x ∷ y ∷ t
]

-- strings.HasSuffix(s, p)
unfoldable pub has_suffix : Bytes → Bytes → Bool
unfolding same
has_suffix s p = leb (length p) (length s) && same (drop (length s - length p) s) p

unfoldable pub count_byte : ℕ → Bytes → ℕ
count_byte c [] = 0
count_byte c (x ∷ s) = (if x == c then 1 else 0) + count_byte c s

-- strings.TrimSuffix(s, "\n")
unfoldable pub trim_one_newline : Bytes → Bytes
trim_one_newline [] = []
trim_one_newline (x ∷ []) = if x == b'\n' then [] else x ∷ []
trim_one_newline (x ∷ y ∷ s) = x ∷ trim_one_newline (y ∷ s)

-- isTruncated
unfoldable pub is_truncated : Bytes → Bool
unfolding trim_newlines has_suffix
is_truncated raw = has_suffix (trim_newlines raw) truncation_notice

abbrev pub up_to : Bytes → Option ℕ → Bytes
up_to body none = []
up_to body (some i) = take (suc i) body

-- stripTruncationNotice
unfoldable pub strip_truncation_notice : Bytes → Bytes
unfolding trim_newlines last_index_byte
strip_truncation_notice raw = up_to (trim_newlines raw) (last_index_byte b'\n' (trim_newlines raw))

-- completeLines
unfoldable pub complete_lines : Bytes → ℕ
unfolding strip_truncation_notice trim_one_newline count_byte
complete_lines raw = count_byte b'\n' (trim_one_newline (strip_truncation_notice raw))
