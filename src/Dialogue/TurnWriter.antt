-- ===== src/Dialogue/TurnWriter.antt =====
-- src/dialogue/turn_writer.cpp: which rows reach the conversation memory. The map of turns in flight is
-- a function from ids; the closures posted to the memory thread are logged as jobs, the newest first,
-- and `run_job` runs one of them on a repository, whose calls are parameters.
pub mod Spec
mod Vectors
pub mod Persistence
mod Tests
use lclva.Prelude.{
  ℕ, zero, suc, ◌+◌, List, [], ◌∷◌, ◌++◌, Option, none, some, Bool, true, false, not, ◌&&◌, ◌||◌,
  if◌then◌else◌, leb, ◌==◌, length, set, u32,
}
use lclva.Event.Types.{TurnId}
use lclva.Dialogue.SentenceSplitter.{Text}

-- What `on_event` reads of an event. A sequence number is a std::uint32_t.
pub data Input : Type 0 where
  final_transcript : (text lang : Text) → Input
  llm_started : TurnId → Input
  llm_sentence : TurnId → (seq : ℕ) (text lang : Text) → Input
  llm_finished : TurnId → (cancelled : Bool) → Input
  playback_finished : TurnId → (seq : ℕ) → Input
  other : Input

pub data TurnRole : Type 0 where
  user assistant : TurnRole

pub data TurnStatus : Type 0 where
  in_progress committed interrupted discarded : TurnStatus

pub record AssistantState : Type 0 where
  pub sentences : List Text
  pub played : List Bool
  pub lang : Text
  pub started_at : ℕ

-- A posted closure. The end of a user's turn is read off the clock when the closure runs.
pub record Job : Type 0 where
  pub session : ℕ
  pub role : TurnRole
  pub text : Text
  pub lang : Option Text
  pub started_at : ℕ
  pub status : TurnStatus
  pub ended_at : Option ℕ
  pub interrupted_at : Option ℕ

pub record TurnWriter : Type 0 where
  pub session : ℕ
  pub in_flight : TurnId → Option AssistantState
  pub posted : List Job

unfoldable pub turn_writer : ℕ → TurnWriter
turn_writer session = record { session = session; in_flight = λ _. none; posted = [] }

abbrev pub is_empty : Text → Bool
is_empty [] = true
is_empty (c ∷ s) = false

abbrev pub optional : Text → Option Text
optional [] = none
optional (c ∷ s) = some (c ∷ s)

abbrev pub update :
    (TurnId → Option AssistantState)
    → TurnId
    → Option AssistantState
    → TurnId
    → Option AssistantState
update f t v x = if x == t then v else f x

unfoldable pub handle_final : Text → Text → ℕ → TurnWriter → TurnWriter
handle_final text lang now w = if w.session == 0 || is_empty text then w else record w {
  posted =
      record {
        session = w.session;
        role = TurnRole.user;
        text = text;
        lang = optional lang;
        started_at = now;
        status = TurnStatus.committed;
        ended_at = none;
        interrupted_at = none;
      }
      ∷ w.posted;
}

abbrev no_sentences : ℕ → AssistantState
no_sentences now = record { sentences = []; played = []; lang = []; started_at = now }

-- `try_emplace`: a turn that is there already is left alone.
unfoldable pub handle_started : TurnId → ℕ → TurnWriter → TurnWriter
handle_started turn now w = elim (w.in_flight turn) [
  | none ↦ record w { in_flight = update w.in_flight turn (some (no_sentences now)) }
  | some st ↦ w
]

-- `resize`
unfoldable pub resize {ℓ} : {A : Type ℓ} → ℕ → A → List A → List A
resize zero v xs = []
resize (suc n) v [] = v ∷ resize n v []
resize (suc n) v (x ∷ xs) = x ∷ resize n v xs

-- The entry that `in_flight_[turn]` gives; a missing one is made with no start.
unfoldable pub entry : TurnId → TurnWriter → AssistantState
entry turn w = elim (w.in_flight turn) [ none ↦ no_sentences 0 | some st ↦ st ]

-- Both vectors get room for a sequence number that is not below the size measured.
unfoldable pub grow : ℕ → ℕ → AssistantState → AssistantState
unfolding resize
grow measured seq st =
    if leb measured seq
    then record st {
      sentences = resize (u32 (seq + 1)) [] st.sentences;
      played = resize (u32 (seq + 1)) false st.played;
    }
    else st

unfoldable pub add_sentence : ℕ → Text → Text → AssistantState → AssistantState
unfolding grow
add_sentence seq text lang st =
    let st₁ = if is_empty st.lang then record st { lang = lang } else st in
    let st₂ = grow (length st₁.sentences) seq st₁ in
    record st₂ { sentences = set st₂.sentences seq text }

unfoldable pub handle_sentence : TurnId → ℕ → Text → Text → TurnWriter → TurnWriter
unfolding entry add_sentence
handle_sentence turn seq text lang w = record w {
  in_flight = update w.in_flight turn (some (add_sentence seq text lang (entry turn w)));
}

unfoldable pub mark_played : ℕ → AssistantState → AssistantState
unfolding grow
mark_played seq st =
    let st' = grow (length st.played) seq st in record st' { played = set st'.played seq true }

unfoldable pub handle_playback_finished : TurnId → ℕ → TurnWriter → TurnWriter
unfolding mark_played
handle_playback_finished turn seq w = elim (w.in_flight turn) [
  | none ↦ w
  | some st ↦ record w { in_flight = update w.in_flight turn (some (mark_played seq st)) }
]

abbrev pub played_at : List Bool → Bool
played_at [] = false
played_at (p ∷ ps) = p

abbrev pub rest_of : List Bool → List Bool
rest_of [] = []
rest_of (p ∷ ps) = ps

abbrev pub separated : Text → Text → Text
separated [] s = s
separated (c ∷ text) s = (c ∷ text) ++ 32 ∷ s

-- One round of the loop: the text so far, and how many sentences are in it.
unfoldable pub persist_one : Bool → Text → Bool → Text × ℕ → Text × ℕ
persist_one cancelled s heard (text, count) =
    if is_empty s || (cancelled && not heard) then (text, count) else (separated text s, count + 1)

unfoldable pub persisted : Bool → List Text → List Bool → Text × ℕ → Text × ℕ
unfolding persist_one
persisted cancelled [] played acc = acc
persisted cancelled (s ∷ ss) played acc =
    persisted cancelled ss (rest_of played) (persist_one cancelled s (played_at played) acc)

-- Behind the loop.
unfoldable pub write_turn : Bool → ℕ → AssistantState → Text × ℕ → TurnWriter → TurnWriter
write_turn cancelled now st (text, count) w = if cancelled && (count == 0) then w else record w {
  posted =
      record {
        session = w.session;
        role = TurnRole.assistant;
        text = text;
        lang = optional st.lang;
        started_at = st.started_at;
        status = if cancelled then TurnStatus.interrupted else TurnStatus.committed;
        ended_at = some now;
        interrupted_at = if cancelled then some count else none;
      }
      ∷ w.posted;
}

unfoldable pub handle_finished : TurnId → Bool → ℕ → TurnWriter → TurnWriter
unfolding persisted write_turn
handle_finished turn cancelled now w = elim (w.in_flight turn) [
  | none ↦ w
  | some st ↦
      (let w' : TurnWriter = record w { in_flight = update w.in_flight turn none } in
        if w'.session == 0
        then w'
        else write_turn cancelled now st (persisted cancelled st.sentences st.played ([], 0)) w')
]

unfoldable pub on_event : Input → ℕ → TurnWriter → TurnWriter
unfolding handle_final handle_started handle_sentence handle_finished handle_playback_finished
on_event (final_transcript text lang) now w = handle_final text lang now w
on_event (llm_started turn) now w = handle_started turn now w
on_event (llm_sentence turn seq text lang) now w = handle_sentence turn seq text lang w
on_event (llm_finished turn cancelled) now w = handle_finished turn cancelled now w
on_event (playback_finished turn seq) now w = handle_playback_finished turn seq w
on_event other now w = w

unfoldable pub run : List (Input × ℕ) → TurnWriter → TurnWriter
unfolding on_event
run [] w = w
run ((e, now) ∷ es) w = run es (on_event e now w)

-- A posted closure on the memory thread. `insert_turn` fails or gives the id of the row, and what
-- `set_turn_status` says is not looked at.
module _ (Repo : Type 0)
    (insert_turn : Repo → ℕ → TurnRole → Text → Option Text → ℕ → TurnStatus → Option ℕ × Repo)
    (set_turn_status : Repo → ℕ → TurnStatus → Option ℕ → Option ℕ → Repo) where
  unfoldable pub run_job : Job → ℕ → Repo → Repo
  run_job j now repo =
      let (r, repo') = insert_turn repo j.session j.role j.text j.lang j.started_at j.status in
      elim r [
        | none ↦ repo'
        | some id ↦
            set_turn_status repo' id j.status
              (elim j.ended_at [ none ↦ some now | some ended ↦ some ended ]) j.interrupted_at
      ]
