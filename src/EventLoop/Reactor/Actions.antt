-- ===== src/EventLoop/Reactor/Actions.antt =====
-- What a handler may do with the channels of the loop while they are handled.
use proto_rpc.Prelude.{
  ℕ, ◌≡◌, ◌≢◌, refl, ap, sym, ◌∙◌, Bool, true, false, not, ◌||◌, Option, some, List, [], ◌∷◌,
  ==_iff, if◌then◌else◌, ◌⊎◌, inl, inr,
}
use proto_rpc.Channel.{Events, Revents}
use proto_rpc.Poller.{CtlOp}
use proto_rpc.Poller.Interest.{IsEpoll}
use proto_rpc.EventLoop.Reactor.{
  Reactor, Action, changes, takes_off, is_current, is_active, may_remove, act, act_all,
}
use proto_rpc.EventLoop.Reactor.Watched.{
  Sound, Mapped, Frame, Frame-trans, loop_update_lem, take_off_lem,
}

module _ {K : Type 0} (registered : K → ℕ → Option Events) (ctl : CtlOp → ℕ → Events → K → Option K)
    (IsLive : ℕ → Type 0) where
  -- What the handler of the channel `cur` may do while `active` are handled: it changes live
  -- channels, and takes off itself or channels that are not active.
  unfoldable pub Allowed : ℕ → List (ℕ × Revents) → Action → Type 0
  Allowed cur active (changes f b) = IsLive b
  Allowed cur active (takes_off b) = IsLive b × ((b ≡ cur) ⊎ (is_active b active ≡ false))

  unfoldable pub AllAllowed : ℕ → List (ℕ × Revents) → List Action → Type 0
  AllAllowed cur active [] = Unit
  AllAllowed cur active (a ∷ todo) = Allowed cur active a × AllAllowed cur active todo

  -- The channels still to be handled, each once, other than `cur`.
  unfoldable pub Waits : ℕ → List (ℕ × Revents) → ℕ → Type 0
  Waits cur active a = IsLive a × (a ≢ cur) × (is_active a active ≡ true)

  module _ (laws : IsEpoll registered ctl) where
    pub record Acted (cur : ℕ) (active : List (ℕ × Revents)) (r r' : Reactor K) : Type 0 where
      pub sound : Sound registered ctl IsLive r'
      pub frame : Frame registered ctl IsLive r r'
      pub others :
          (a : ℕ)
          → Waits cur active a
          → Mapped registered ctl IsLive a r
          → Mapped registered ctl IsLive a r'

    removable :
        (b cur : ℕ) (active : List (ℕ × Revents)) (r : Reactor K)
        → r.active ≡ active
        → r.current ≡ some cur
        → (b ≡ cur) ⊎ (is_active b active ≡ false)
        → may_remove b r ≡ true
    unfolding may_remove is_current
    removable b cur active r act c h =
        by_flags r.handling (is_current r.current b) (is_active b r.active) (elim h [
          | inl e ↦ inl (ap (λ o. is_current o b) c ∙ (==_iff cur b).1 (sym e))
          | inr e ↦ inr (ap (is_active b) act ∙ e)
        ])
      where
        by_flags :
            (h x y : Bool) → (x ≡ true) ⊎ (y ≡ false) → (if h then x || not y else true) ≡ true
        by_flags false x y e = refl
        by_flags true true y e = refl
        by_flags true false y (inl e) = cc
        by_flags true false y (inr e) = ap not e

    act_lem :
        (a : Action) (cur : ℕ) (active : List (ℕ × Revents)) (r : Reactor K)
        → r.active ≡ active
        → r.current ≡ some cur
        → Allowed cur active a
        → Sound registered ctl IsLive r
        → (r' : Reactor K) × (act ctl a r ≡ some r') × Acted cur active r r'
    unfolding Allowed act Waits
    act_lem (changes f b) cur active r ra c ok s =
        let (r', e, u) = loop_update_lem registered ctl IsLive laws f b r ok s in
        (r', e, record { sound = u.sound; frame = u.frame; others = λ a w m. u.others a w.0 m })
    act_lem (takes_off b) cur active r ra c ok s =
        let (r', e, u) =
          take_off_lem registered ctl IsLive laws b r ok.0 s (removable b cur active r ra c ok.1) in
        (
          r',
          e,
          record {
            sound = u.sound;
            frame = u.frame;
            others = λ a w m. u.others a w.0 (differs a w ok.1) m;
          },
        )
      where
        true-false : true ≡ false → ⊥
        true-false e = cc

        differs : (a : ℕ) → Waits cur active a → (b ≡ cur) ⊎ (is_active b active ≡ false) → a ≢ b
        differs a w (inl e) f = w.1 (f ∙ e)
        differs a w (inr e) f = true-false (sym w.2 ∙ ap (λ x. is_active x active) f ∙ e)

    pub act_all_lem :
        (todo : List Action) (cur : ℕ) (active : List (ℕ × Revents)) (r : Reactor K)
        → r.active ≡ active
        → r.current ≡ some cur
        → AllAllowed cur active todo
        → Sound registered ctl IsLive r
        → (r' : Reactor K) × (act_all ctl todo r ≡ some r') × Acted cur active r r'
    unfolding AllAllowed act_all
    act_all_lem [] cur active r ra c ok s = (
      r,
      refl,
      record {
        sound = s;
        frame = record { active = refl; current = refl; handling = refl; handled = refl };
        others = λ a w m. m;
      },
    )
    act_all_lem (a ∷ todo) cur active r ra c ok s =
        let (r₁, e₁, u) = act_lem a cur active r ra c ok.0 s in
        let (r₂, e₂, v) =
          act_all_lem todo cur active r₁ (u.frame.active ∙ ra) (u.frame.current ∙ c) ok.1 u.sound in
        (
          r₂,
          rw (e₁, e₂) refl,
          record {
            sound = v.sound;
            frame = Frame-trans registered ctl IsLive u.frame v.frame;
            others = λ a w m. v.others a w (u.others a w m);
          },
        )
