-- ===== src/JsonRpc/Stream.antt =====
-- pyinc_tools/_jsonrpc.py: messages written one after the other.
use pyinc.Prelude.{some, ℕ, zero, suc, ◌≤◌, ◌≡◌, refl, ◌∙◌, ap, true, List, [], ◌∷◌, length, All}
use pyinc.Value.Snapshot.{Bytes}
use pyinc.JsonRpc.Headers.{max_content_length, readline}
use pyinc.JsonRpc.Messages.{
  Json, Reading, message, end_of_stream, read_headers, read_message, write_message, on_line,
}
use pyinc.JsonRpc.Framing.{read_message-write_message}

module _ (j : Json) where
  -- The bytes of the messages.
  unfoldable pub write_all : List j.Value → Bytes
  unfolding write_message
  write_all [] = []
  write_all (v ∷ vs) = write_message j v (write_all vs)

  -- The outcomes of `n` reads.
  unfoldable pub read_times : ℕ → Bytes → List (Reading j.Value)
  unfolding read_message
  read_times zero bs = []
  read_times (suc n) bs = let (r, rest) = read_message j bs in r ∷ read_times n rest

  -- The outcomes when each message is read, and the end after them.
  unfoldable pub all_messages : List j.Value → List (Reading j.Value)
  all_messages [] = end_of_stream ∷ []
  all_messages (v ∷ vs) = message v ∷ all_messages vs

  -- Messages that are written one after the other are read as they were written, in their order,
  -- and then the end of the stream. Each is an object, its text is parsed as it, and has at most 16 MiB.
  pub read_times-write_all :
      (vs : List j.Value)
      → All
          (λ v.
            (j.is_dict v ≡ true)
            × ((j.loads (j.dumps v) ≡ some v) × (length (j.dumps v) ≤ max_content_length)))
          vs
      → read_times (suc (length vs)) (write_all vs) ≡ all_messages vs
  unfolding read_times write_all all_messages read_message read_headers on_line readline
  read_times-write_all [] ok = refl
  read_times-write_all (v ∷ vs) ((dict, (back, le)), ok) =
      let e = read_message-write_message j v (write_all vs) dict back le in
      ap (λ x. x.0 ∷ read_times (suc (length vs)) x.1) e
      ∙ ap (λ rs. message v ∷ rs) (read_times-write_all vs ok)
