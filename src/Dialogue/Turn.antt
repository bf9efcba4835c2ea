-- ===== src/Dialogue/Turn.antt =====
-- src/dialogue/turn.hpp and turn.cpp. A cancellation token is shared by pointer, so tokens live in a
-- store and a context holds the address of its token.
use lclva.Prelude.{
  ℕ, ◌+◌, Option, none, some, Bool, true, false, if◌then◌else◌, ◌==◌, not, ◌&&◌, u64,
}
use lclva.Event.Types.{TurnId, k_no_turn}

-- The tokens made so far: addresses below `count` are in use.
pub record TokenStore : Type 0 where
  pub count : ℕ
  pub cancelled : ℕ → Bool

abbrev pub update : (ℕ → Bool) → ℕ → Bool → ℕ → Bool
update f a b x = if x == a then b else f x

-- `std::make_shared<CancellationToken>()`: a fresh address, not cancelled.
unfoldable pub make_token : TokenStore → ℕ × TokenStore
make_token s =
    (s.count, record { count = s.count + 1; cancelled = update s.cancelled s.count false })

-- `CancellationToken::cancel`
unfoldable pub cancel : ℕ → TokenStore → TokenStore
cancel a s = record s { cancelled = update s.cancelled a true }

pub record TurnContext : Type 0 where
  pub id : TurnId
  pub token : Option ℕ
  pub started_at : ℕ

abbrev pub no_context : TurnContext
no_context = record { id = k_no_turn; token = none; started_at = 0 }

unfoldable pub valid : TurnContext → Bool
valid c = not (c.id == k_no_turn) && elim c.token [ none ↦ false | some a ↦ true ]

-- A context with no token counts as cancelled.
unfoldable pub is_cancelled : TokenStore → TurnContext → Bool
is_cancelled s c = elim c.token [ none ↦ true | some a ↦ s.cancelled a ]

pub record TurnFactory : Type 0 where
  pub next : TurnId

-- The id wraps as `std::uint64_t` does; `now` is the time of the call.
unfoldable pub mint : TurnFactory → TokenStore → ℕ → TurnContext × TurnFactory × TokenStore
unfolding make_token
mint f s now =
    let (a, s') = make_token s in
    (
      record { id = f.next; token = some a; started_at = now },
      record { next = u64 (f.next + 1) },
      s',
    )

unfoldable pub adopt : TurnId → TokenStore → ℕ → TurnContext × TokenStore
unfolding make_token
adopt id s now =
    let (a, s') = make_token s in (record { id = id; token = some a; started_at = now }, s')
