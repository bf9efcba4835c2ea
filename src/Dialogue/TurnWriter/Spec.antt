-- ===== src/Dialogue/TurnWriter/Spec.antt =====
-- src/dialogue/turn_writer.hpp: what the memory should hold of an assistant's turn, told by the events
-- of the turn alone.
use lclva.Prelude.{
  ℕ, zero, suc, ◌<◌, ◌≡◌, ◌≢◌, List, [], ◌∷◌, ◌++◌, none, some, Bool, true, not, ◌&&◌, ◌||◌,
  if◌then◌else◌, ◌==◌, length,
}
use lclva.Event.Types.{TurnId}
use lclva.Dialogue.SentenceSplitter.{Text}
use lclva.Dialogue.TurnWriter.{
  Input, llm_sentence, llm_finished, playback_finished, TurnRole, TurnStatus, Job, is_empty,
  optional,
}

-- The text last given for each sequence number of a turn.
abbrev pub say : TurnId → Input → (ℕ → Text) → ℕ → Text
say turn (llm_sentence t seq text lang) f i = if (turn == t) && (i == seq) then text else f i
say turn _ f i = f i

abbrev pub said : TurnId → List (Input × ℕ) → (ℕ → Text) → ℕ → Text
said turn [] f = f
said turn ((e, now) ∷ es) f = said turn es (say turn e f)

-- Which sequence numbers have been played to the end.
abbrev pub hear : TurnId → Input → (ℕ → Bool) → ℕ → Bool
hear turn (playback_finished t seq) f i = if (turn == t) && (i == seq) then true else f i
hear turn _ f i = f i

abbrev pub heard : TurnId → List (Input × ℕ) → (ℕ → Bool) → ℕ → Bool
heard turn [] f = f
heard turn ((e, now) ∷ es) f = heard turn es (hear turn e f)

-- The first language given that is not empty.
abbrev pub name_tongue : TurnId → Input → Text → Text
name_tongue turn (llm_sentence t seq text lang) l = if (turn == t) && is_empty l then lang else l
name_tongue turn _ l = l

abbrev pub tongue : TurnId → List (Input × ℕ) → Text → Text
tongue turn [] l = l
tongue turn ((e, now) ∷ es) l = tongue turn es (name_tongue turn e l)

-- The sentences that count, of the first `n`: those with a text, and of a cancelled turn those heard.
unfoldable pub pieces : Bool → ℕ → (ℕ → Text) → (ℕ → Bool) → List Text
pieces cancelled zero s h = []
pieces cancelled (suc n) s h =
    let rest = pieces cancelled n (λ i. s (suc i)) (λ i. h (suc i)) in
    if is_empty (s 0) || (cancelled && not (h 0)) then rest else s 0 ∷ rest

-- Sentences joined by single blanks.
abbrev pub after_blanks : List Text → Text
after_blanks [] = []
after_blanks (p ∷ ps) = 32 ∷ (p ++ after_blanks ps)

abbrev pub spaced : List Text → Text
spaced [] = []
spaced (p ∷ ps) = p ++ after_blanks ps

-- An event that does not end the turn, and whose sequence number is below a bound if it is of the turn.
abbrev pub InTurn : TurnId → ℕ → Input × ℕ → Type 0
InTurn turn n (llm_sentence t seq text lang, now) = turn ≡ t → seq < n
InTurn turn n (playback_finished t seq, now) = turn ≡ t → seq < n
InTurn turn n (llm_finished t cancelled, now) = turn ≢ t
InTurn turn n _ = Unit

-- The rows that the end of a turn should add.
abbrev pub rows : ℕ → Bool → List Text → Text → ℕ → ℕ → List Job
rows session true [] lang started now = []
rows session cancelled ps lang started now =
    record {
      session = session;
      role = TurnRole.assistant;
      text = spaced ps;
      lang = optional lang;
      started_at = started;
      status = if cancelled then TurnStatus.interrupted else TurnStatus.committed;
      ended_at = some now;
      interrupted_at = if cancelled then some (length ps) else none;
    }
    ∷ []
