-- ===== src/WebSockets/Sessions.antt =====
-- Tokens, sessions and their subscriptions: the laws of the methods in src/websockets/mod.rs.
use kromer.Prelude.{
  ℕ, ◌==◌, ◌≡◌, refl, ap, sym, ◌∙◌, ◌≢◌, Option, none, some, List, [], ◌∷◌, push, true, false, ◌||◌,
  arith, Bool-cases, inl, inr,
}
use mathlib.Core.Path.{subst}
use kromer.WebSockets.{
  WebSocketSubscriptionType, blocks, own_blocks, transactions, own_transactions, names, own_names,
  motd, WebSocketSessionData, WebSocketTokenData, WebSocketServer,
}
use kromer.WebSockets.Server.{
  get, without, insert_new, update_at, obtain_token, subscribing, unsubscribing, use_token,
  subscribe_to_event, unsubscribe_from_event, get_subscription_list, fetch_session_data,
}
use kromer.WebSockets.Subscriptions.{into_string, from_str, same, contains, insert, remove}

module _ {V : Type 0} (k : ℕ) where
  pub get-without : (m : List (ℕ × V)) → get k (without k m) ≡ none
  unfolding get without
  get-without [] = refl
  get-without ((j, v) ∷ m) = ground (arith, get-without m)

  get-without_other : (j : ℕ) (m : List (ℕ × V)) → j ≢ k → get j (without k m) ≡ get j m
  unfolding get without
  get-without_other j [] ne = refl
  get-without_other j ((i, v) ∷ m) ne = ground (arith, get-without_other j m ne)

  pub get-insert_new :
      (v : V) (m : List (ℕ × V)) → get k m ≡ none → get k (insert_new k v m) ≡ some v
  unfolding get insert_new
  get-insert_new v m h =
      subst (λ o. get k (elim o [ none ↦ (k, v) ∷ m | some _ ↦ m ]) ≡ some v) (sym h) (ground arith)

  get-update_at :
      (f : V → V) (m : List (ℕ × V)) (v : V)
      → get k m ≡ some v
      → get k (update_at k f m) ≡ some (f v)
  unfolding get update_at
  get-update_at f [] v h = cc
  get-update_at f ((j, u) ∷ m) v h = ground (arith, get-update_at f m v)

  get-update_at_other :
      (f : V → V) (j : ℕ) (m : List (ℕ × V)) → j ≢ k → get j (update_at k f m) ≡ get j m
  unfolding get update_at
  get-update_at_other f j [] ne = refl
  get-update_at_other f j ((i, u) ∷ m) ne = ground (arith, get-update_at_other f j m ne)

-- A token is good for one use: the second one finds nothing, and no other token is touched.
pub use_token-once :
    (uuid : ℕ) (s : WebSocketServer)
    → ((use_token uuid (use_token uuid s).1).0 ≡ none)
      × ((other : ℕ)
          → other ≢ uuid
          → (use_token other (use_token uuid s).1).0 ≡ (use_token other s).0)
unfolding use_token
use_token-once uuid s = (
  get-without uuid s.pending_tokens,
  λ other ne. get-without_other uuid other s.pending_tokens ne,
)

-- What a token is drawn to: a free number, at which the data can be redeemed.
abbrev pub Redeemable : WebSocketServer → WebSocketTokenData → Option (ℕ × WebSocketServer) → Type 0
Redeemable s d none = Unit
Redeemable s d (some (uuid, s')) =
    (get uuid s.pending_tokens ≡ none) × ((use_token uuid s').0 ≡ some d)

-- A token that is issued was free, and using it gives back the data it was issued for.
pub obtain_token-Redeemable :
    (draws : List ℕ) (d : WebSocketTokenData) (s : WebSocketServer)
    → Redeemable s d (obtain_token draws d s)
unfolding obtain_token use_token
obtain_token-Redeemable [] d s = tt
obtain_token-Redeemable (uuid ∷ draws) d s =
    drawn (obtain_token-Redeemable draws d s) (get uuid s.pending_tokens) refl
  where
    drawn :
        Redeemable s d (obtain_token draws d s)
        → (o : Option WebSocketTokenData) → get uuid s.pending_tokens ≡ o
        → Redeemable s d (elim o [
          | none ↦ some (uuid, record s { pending_tokens = insert_new uuid d s.pending_tokens })
          | some _ ↦ obtain_token draws d s
        ])
    drawn ih none free = (free, get-insert_new uuid d s.pending_tokens free)
    drawn ih (some _) taken = ih

-- The text of a subscription type reads back as that type.
pub from_str-into_string : (e : WebSocketSubscriptionType) → from_str (into_string e) ≡ some e
unfolding from_str into_string
from_str-into_string blocks = refl
from_str-into_string own_blocks = refl
from_str-into_string transactions = refl
from_str-into_string own_transactions = refl
from_str-into_string names = refl
from_str-into_string own_names = refl
from_str-into_string motd = refl

same_refl : (e : WebSocketSubscriptionType) → same e e ≡ true
unfolding same
same_refl blocks = refl
same_refl own_blocks = refl
same_refl transactions = refl
same_refl own_transactions = refl
same_refl names = refl
same_refl own_names = refl
same_refl motd = refl

unfoldable code : WebSocketSubscriptionType → ℕ
code blocks = 0
code own_blocks = 1
code transactions = 2
code own_transactions = 3
code names = 4
code own_names = 5
code motd = 6

contains-push :
    (e f : WebSocketSubscriptionType) (l : List WebSocketSubscriptionType)
    → contains e (push l f) ≡ (contains e l || same e f)
unfolding contains
contains-push e f [] = ground arith
contains-push e f (g ∷ l) = ground (arith, contains-push e f l)

same-code : (e f : WebSocketSubscriptionType) → same e f ≡ (code e == code f)
unfolding same code
same-code e f = ground arith

contains-remove :
    (e : WebSocketSubscriptionType) (l : List WebSocketSubscriptionType)
    → contains e (remove e l) ≡ false
unfolding contains remove
contains-remove e [] = refl
contains-remove e (f ∷ l) = ground (arith, contains-remove e l)

-- What is no other type is no other type of it either.
same_other :
    (e f g : WebSocketSubscriptionType) → same e f ≡ false → same e g ≡ true → same f g ≡ false
same_other e f g h k = ground (arith, same-code e f, same-code e g, same-code f g)

contains-remove_other :
    (e f : WebSocketSubscriptionType) (l : List WebSocketSubscriptionType)
    → same e f ≡ false
    → contains f (remove e l) ≡ contains f l
unfolding contains remove
contains-remove_other e f [] h = refl
contains-remove_other e f (g ∷ l) h = elim (Bool-cases (same e g)) [
  | inl here ↦ rw (here, same_other e f g h here) (contains-remove_other e f l h)
  | inr there ↦ rw there (ap (λ b. same f g || b) (contains-remove_other e f l h))
]

contains-insert :
    (e f : WebSocketSubscriptionType) (l : List WebSocketSubscriptionType)
    → contains f (insert e l) ≡ (same f e || contains f l)
unfolding insert
contains-insert e f l = ground (arith, contains-push f e l, same-code f e)

list_of :
    (uuid : ℕ) (s : WebSocketServer) (d : WebSocketSessionData)
    → get uuid s.sessions ≡ some d
    → get_subscription_list uuid s ≡ d.subscriptions
unfolding get_subscription_list
list_of uuid s d h = ap (λ o. elim o [ none ↦ [] | some v ↦ v.subscriptions ]) h

-- Subscribing and unsubscribing at a session that is there, as its own list of subscriptions shows:
-- after subscribing the event is on the list, after unsubscribing it is not, and in both cases every
-- other event is on it as before.
pub contains-get_subscription_list :
    (uuid : ℕ) (e : WebSocketSubscriptionType) (s : WebSocketServer) (d : WebSocketSessionData)
    → get uuid s.sessions ≡ some d
    → (contains e (get_subscription_list uuid (subscribe_to_event uuid e s)) ≡ true)
      × (contains e (get_subscription_list uuid (unsubscribe_from_event uuid e s)) ≡ false)
      × ((f : WebSocketSubscriptionType)
          → same e f ≡ false
          → (contains f (get_subscription_list uuid (subscribe_to_event uuid e s))
              ≡ contains f d.subscriptions)
            × (contains f (get_subscription_list uuid (unsubscribe_from_event uuid e s))
                ≡ contains f d.subscriptions))
unfolding subscribe_to_event unsubscribe_from_event subscribing unsubscribing
contains-get_subscription_list uuid e s d h =
    rw
      (
        list_of uuid (subscribe_to_event uuid e s) (subscribing e d)
            (get-update_at uuid (subscribing e) s.sessions d h),
        list_of uuid (unsubscribe_from_event uuid e s) (unsubscribing e d)
            (get-update_at uuid (unsubscribing e) s.sessions d h),
      )
      (
        contains-insert e e d.subscriptions ∙ rw (same_refl e) refl,
        contains-remove e d.subscriptions,
        λ f ne. (
          contains-insert e f d.subscriptions ∙ ground (arith, same-code e f, same-code f e),
          contains-remove_other e f d.subscriptions ne,
        ),
      )

-- Subscribing and unsubscribing change no other session.
pub fetch_session_data-other :
    (uuid other : ℕ) (e : WebSocketSubscriptionType) (s : WebSocketServer)
    → other ≢ uuid
    → (fetch_session_data other (subscribe_to_event uuid e s) ≡ fetch_session_data other s)
      × (fetch_session_data other (unsubscribe_from_event uuid e s) ≡ fetch_session_data other s)
unfolding fetch_session_data subscribe_to_event unsubscribe_from_event
fetch_session_data-other uuid other e s ne = (
  get-update_at_other uuid (subscribing e) other s.sessions ne,
  get-update_at_other uuid (unsubscribing e) other s.sessions ne,
)
