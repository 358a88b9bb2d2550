-- ===== src/JsonRpc/Tests.antt =====
-- Messages whose texts are their own values, on which the theorems are applied.
use pyinc.Prelude.{◌≡◌, ◌≢◌, ◌≤◌, ◌+◌, ◌-◌, refl, true, some, [], ◌∷◌, length, arith}
use pyinc.Value.Snapshot.{Bytes}
use pyinc.JsonRpc.Messages.{Json, too_many_lines, read_message}
use pyinc.JsonRpc.Progress.{read_message-progress}
use pyinc.JsonRpc.Stream.{read_times, write_all, all_messages, read_times-write_all}

abbrev texts : Json
texts = record { Value = Bytes; loads = λ bs. some bs; is_dict = λ v. true; dumps = λ v. v }

-- `{}`
abbrev empty : Bytes
empty = b'{' ∷ b'}' ∷ []

read_times-write_all_example :
    read_times texts 3 (write_all texts (empty ∷ (b'0' ∷ []) ∷ []))
    ≡ all_messages texts (empty ∷ (b'0' ∷ []) ∷ [])
read_times-write_all_example =
    read_times-write_all texts (empty ∷ (b'0' ∷ []) ∷ [])
      ((refl, (refl, omega arith)), ((refl, (refl, omega arith)), tt))

-- A header that breaks off
abbrev broken : Bytes
broken = b'C' ∷ b'o' ∷ 10 ∷ 10 ∷ []

read_message-progress_example :
    ((read_message texts broken).0 ≢ too_many_lines)
    × ((length (read_message texts broken).1 ≤ length broken - 1)
        × (length broken ≤ length (read_message texts broken).1 + (65537 + 16777216)))
read_message-progress_example = read_message-progress texts broken
