-- ===== src/Routes/Routing/Guarded.antt =====
-- The guard of src/guards.rs on the internal routes: no other way leads to their handlers.
use mathlib.Core.Option
use mathlib.Core.Path.{subst}
use kromer.Prelude.{
  String, ◌≡◌, Option, none, some, List, [], ◌∷◌, Bool, true, false, if◌then◌else◌,
}
use kromer.Routes.Routing.{
  Method, Endpoint, Answer, handled, not_found, Service, when, fixed, by_parameter, under, over,
  put_or_post, first_of, after_prefix, scope, guarded,
}
use kromer.Routes.Routing.Table.{config, route}

-- The handlers of src/routes/internal.
abbrev pub IsInternal : Endpoint → Type 0
IsInternal Endpoint.wallet_create = Unit
IsInternal Endpoint.wallet_give_money = Unit
IsInternal (Endpoint.wallet_get_by_uuid u) = Unit
IsInternal Endpoint.get_session = Unit
IsInternal Endpoint.get_sessions = Unit
IsInternal _ = ⊥

abbrev IsPublic : Option Answer → Type 0
IsPublic (some (handled e)) = ¬ IsInternal e
IsPublic _ = Unit

-- A service that leads to no internal handler.
record Public (s : Service) : Type 0 where
  pub at : (m : Method) (p : List String) → IsPublic (s m p)

when-IsPublic : (b : Bool) (e : Endpoint) → ¬ IsInternal e → IsPublic (when b e)
when-IsPublic true e h = h
when-IsPublic false e h = tt

fixed-Public : (m : Method) (p : List String) (e : Endpoint) → ¬ IsInternal e → Public (fixed m p e)
unfolding fixed
fixed-Public m p e h = record { at = λ m' q. when-IsPublic _ e h }

module _ (m : Method) (f : String → Endpoint) (h : (s : String) → ¬ IsInternal (f s)) where
  by_parameter-IsPublic : (m' : Method) (p : List String) → IsPublic (by_parameter m f m' p)
  unfolding by_parameter
  by_parameter-IsPublic m' (s ∷ []) = when-IsPublic _ (f s) (h s)
  by_parameter-IsPublic m' [] = tt
  by_parameter-IsPublic m' (s ∷ t ∷ p) = tt

  by_parameter-Public : Public (by_parameter m f)
  by_parameter-Public = record { at = by_parameter-IsPublic }

  module _ (word : String) where
    under-IsPublic : (m' : Method) (p : List String) → IsPublic (under m word f m' p)
    unfolding under
    under-IsPublic m' (s ∷ t ∷ []) = when-IsPublic _ (f t) (h t)
    under-IsPublic m' [] = tt
    under-IsPublic m' (s ∷ []) = tt
    under-IsPublic m' (s ∷ t ∷ u ∷ p) = tt

    under-Public : Public (under m word f)
    under-Public = record { at = under-IsPublic }

    over-IsPublic : (m' : Method) (p : List String) → IsPublic (over m word f m' p)
    unfolding over
    over-IsPublic m' (s ∷ t ∷ []) = when-IsPublic _ (f s) (h s)
    over-IsPublic m' [] = tt
    over-IsPublic m' (s ∷ []) = tt
    over-IsPublic m' (s ∷ t ∷ u ∷ p) = tt

    over-Public : Public (over m word f)
    over-Public = record { at = over-IsPublic }

put_or_post-IsPublic :
    (word : String) (f : String → Endpoint)
    → ((s : String) → ¬ IsInternal (f s))
    → (m : Method) (p : List String) → IsPublic (put_or_post word f m p)
unfolding put_or_post
put_or_post-IsPublic word f h m (s ∷ t ∷ []) = taken _ _ _
  where
    taken :
        (b c d : Bool)
        → IsPublic (
            if b
            then some (
                if c then handled (f s) else if d then handled (f s) else Answer.method_not_allowed)
            else none)
    taken false c d = tt
    taken true true d = h s
    taken true false true = h s
    taken true false false = tt
put_or_post-IsPublic word f h m [] = tt
put_or_post-IsPublic word f h m (s ∷ []) = tt
put_or_post-IsPublic word f h m (s ∷ t ∷ u ∷ p) = tt

put_or_post-Public :
    (word : String) (f : String → Endpoint)
    → ((s : String) → ¬ IsInternal (f s))
    → Public (put_or_post word f)
put_or_post-Public word f h = record { at = put_or_post-IsPublic word f h }

either-IsPublic :
    (o rest : Option Answer)
    → IsPublic o
    → IsPublic rest
    → IsPublic (elim o as (λ _. Option Answer) [ none ↦ rest | some a ↦ some a ])
either-IsPublic none rest h k = k
either-IsPublic (some a) rest h k = h

-- Every service of a configuration.
record AllPublic (l : List Service) : Type 0 where
  pub all : Public (first_of l)

none-AllPublic : AllPublic []
unfolding first_of
none-AllPublic = record { all = record { at = λ m p. tt } }

more-AllPublic : (s : Service) (l : List Service) → Public s → AllPublic l → AllPublic (s ∷ l)
unfolding first_of
more-AllPublic s l h k = record {
  all = record { at = λ m p. either-IsPublic (s m p) (first_of l m p) (h.at m p) (k.all.at m p) };
}

scope-Public : (path : List String) (l : List Service) → AllPublic l → Public (scope path l)
unfolding scope
scope-Public path l h = record {
  at = λ m p. inside (after_prefix path p) (λ rest. first_of l m rest) (λ rest. h.all.at m rest);
}
  where
    found : (o : Option Answer) → IsPublic o → IsPublic (some (Option.get_or o not_found))
    found none h = tt
    found (some a) h = h

    inside :
        (o : Option (List String)) (f : List String → Option Answer)
        → ((rest : List String) → IsPublic (f rest))
        → IsPublic (Option.map (λ rest. Option.get_or (f rest) not_found) o)
    inside none f h = tt
    inside (some rest) f h = found (f rest) (h rest)

refused-Public : (s : Service) → Public (guarded false s)
unfolding guarded
refused-Public s = record { at = λ m p. tt }

keyless-AllPublic : AllPublic (config false)
keyless-AllPublic =
    search
      (
        fixed-Public, by_parameter-Public, under-Public, over-Public, put_or_post-Public,
        none-AllPublic, more-AllPublic, scope-Public, refused-Public,
      )
      depth 40

given-IsPublic :
    (o : Option Answer) (e : Endpoint)
    → IsPublic o
    → Option.get_or o not_found ≡ handled e
    → ¬ IsInternal e
given-IsPublic (some (handled d)) e h same = let it : d ≡ e = cc in subst (λ f. ¬ IsInternal f) it h
given-IsPublic (some not_found) e h same = absurd (cc)
given-IsPublic (some Answer.method_not_allowed) e h same = absurd (cc)
given-IsPublic none e h same = absurd (cc)

-- Without the key no request goes to a handler of the internal routes, whatever its method and its
-- path are.
pub route-guarded :
    (m : Method) (p : List String) (e : Endpoint) → IsInternal e → ¬ (route false m p ≡ handled e)
unfolding route
route-guarded m p e inside same =
    given-IsPublic (first_of (config false) m p) e (keyless-AllPublic.all.at m p) same inside
