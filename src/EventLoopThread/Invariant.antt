-- ===== src/EventLoopThread/Invariant.antt =====
-- What the owner and the loop's thread know of each other, in any order of their steps.
use proto_rpc.Prelude.{
  ℕ, suc, ◌≡◌, refl, Bool, true, false, not, inl, inr, arith, ◌⊎◌, sym, ap, ◌∙◌,
}
use proto_rpc.EventLoop.{
  EventLoop, new_event_loop, quit, wakeup, start_looping, goes_on, stop_looping,
}
use proto_rpc.EventLoopThread.{
  LoopThread, Runner, unstarted, constructing, entering, running, clearing, ended, Owner, fresh,
  waiting, sleeping, notified, returned, joining, destroyed, terminated, RunnerStep, publishes,
  enters, leaves, clears, OwnerStep, starts, gets, sleeps, quits_loop, skips_thread, skips_nothing,
  joins, Step, by_runner, by_owner, wakes, other_quits, Reach, here, after,
}

abbrev pub is_published : Runner → Bool
is_published entering = true
is_published running = true
is_published clearing = true
is_published _ = false

abbrev pub is_running : Runner → Bool
is_running running = true
is_running _ = false

abbrev pub is_begun : Runner → Bool
is_begun unstarted = false
is_begun _ = true

abbrev pub is_past : Runner → Bool
is_past unstarted = false
is_past constructing = false
is_past _ = true

abbrev pub is_ending : Runner → Bool
is_ending clearing = true
is_ending ended = true
is_ending _ = false

-- How far the thread is by what the owner knows.
unfoldable pub Fits : Owner → Runner → ℕ → Type 0
Fits fresh r q = (is_begun r ≡ false) × (q ≡ 0)
Fits waiting r q = (is_begun r ≡ true) × (q ≡ 0)
Fits sleeping r q = (is_begun r ≡ true) × (q ≡ 0) × (is_published r ≡ false)
Fits returned r q = is_past r ≡ true
Fits joining r q = is_past r ≡ true
Fits destroyed r q = Unit
Fits terminated r q = Unit

pub record Inv (t : LoopThread) : Type 0 where
  pub pointer : t.published ≡ is_published t.runner
  pub looping : t.loop.looping ≡ is_running t.runner
  pub fits : Fits t.owner t.runner t.quits
  pub calm : t.quits ≡ 0 → (t.loop.quit_wanted ≡ false) × (is_ending t.runner ≡ false)

pub true-false : true ≡ false → ⊥
true-false e = cc

Fits-moves :
    (o : Owner) (r r' : Runner) (q : ℕ)
    → is_begun r' ≡ is_begun r
    → (is_past r ≡ true → is_past r' ≡ true)
    → is_published r ≡ true
    → Fits o r q
    → Fits o r' q
unfolding Fits
Fits-moves fresh r r' q b p s f = (rw b f.0, f.1)
Fits-moves waiting r r' q b p s f = (rw b f.0, f.1)
Fits-moves sleeping r r' q b p s f = absurd (true-false (sym s ∙ f.2))
Fits-moves returned r r' q b p s f = p f
Fits-moves joining r r' q b p s f = p f
Fits-moves destroyed r r' q b p s f = tt
Fits-moves terminated r r' q b p s f = tt

-- A sleeping owner is woken by the publication.
Fits-notified : (o : Owner) (q : ℕ) → Fits o constructing q → Fits (notified o) entering q
unfolding Fits notified
Fits-notified fresh q f = f
Fits-notified waiting q f = f
Fits-notified sleeping q f = (refl, f.1)
Fits-notified returned q f = refl
Fits-notified joining q f = refl
Fits-notified destroyed q f = tt
Fits-notified terminated q f = tt

quit-looping : (l : EventLoop) → (quit false l).looping ≡ l.looping
unfolding quit wakeup
quit-looping l = refl

RunnerStep-Inv : {t t' : LoopThread} → RunnerStep t t' → Inv t → Inv t'
unfolding start_looping stop_looping goes_on
RunnerStep-Inv (publishes {o = o} {q = q}) v = record {
  pointer = refl;
  looping = v.looping;
  fits = Fits-notified o q v.fits;
  calm = λ e. ((v.calm e).0, refl);
}
RunnerStep-Inv (enters {l = l} {l' = l'} {o = o} {q = q} e) v = record {
  pointer = v.pointer;
  looping = ground arith;
  fits = Fits-moves o entering running q refl (λ e. refl) refl v.fits;
  calm = λ z. (ground arith, refl);
}
RunnerStep-Inv (leaves {l = l} {o = o} {q = q} e) v = record {
  pointer = v.pointer;
  looping = refl;
  fits = Fits-moves o running clearing q refl (λ e. refl) refl v.fits;
  calm = λ z. absurd (true-false (sym (ap not (v.calm z).0) ∙ e));
}
RunnerStep-Inv (clears {o = o} {q = q}) v = record {
  pointer = refl;
  looping = v.looping;
  fits = Fits-moves o clearing ended q refl (λ e. refl) refl v.fits;
  calm = λ z. absurd (true-false (v.calm z).1);
}

suc_zero : (n : ℕ) → suc n ≡ 0 → ⊥
suc_zero n e = omega (arith, e)

OwnerStep-Inv : {t t' : LoopThread} → OwnerStep t t' → Inv t → Inv t'
unfolding Fits
OwnerStep-Inv (starts {r = r}) v = record {
  pointer = by_runner_start r v.pointer v.fits.0;
  looping = by_runner_loop r v.looping v.fits.0;
  fits = (refl, v.fits.1);
  calm = λ z. ((v.calm z).0, refl);
}
  where
    by_runner_start : {b : Bool} (r : Runner) → b ≡ is_published r → is_begun r ≡ false → b ≡ false
    by_runner_start unstarted e f = e
    by_runner_start _ e f = cc

    by_runner_loop : {b : Bool} (r : Runner) → b ≡ is_running r → is_begun r ≡ false → b ≡ false
    by_runner_loop unstarted e f = e
    by_runner_loop _ e f = cc
OwnerStep-Inv (gets {r = r}) v = record {
  pointer = v.pointer;
  looping = v.looping;
  fits = by_pointer r v.pointer;
  calm = v.calm;
}
  where
    by_pointer : (r : Runner) → true ≡ is_published r → is_past r ≡ true
    by_pointer unstarted e = cc
    by_pointer constructing e = cc
    by_pointer _ e = refl
OwnerStep-Inv sleeps v = record {
  pointer = v.pointer;
  looping = v.looping;
  fits = (v.fits.0, v.fits.1, sym v.pointer);
  calm = v.calm;
}
OwnerStep-Inv (quits_loop {l = l} {q = q}) v = record {
  pointer = v.pointer;
  looping = quit-looping l ∙ v.looping;
  fits = v.fits;
  calm = λ z. absurd (suc_zero q z);
}
OwnerStep-Inv skips_thread v = record {
  pointer = v.pointer;
  looping = v.looping;
  fits = tt;
  calm = v.calm;
}
OwnerStep-Inv skips_nothing v = record {
  pointer = v.pointer;
  looping = v.looping;
  fits = tt;
  calm = v.calm;
}
OwnerStep-Inv joins v = record {
  pointer = v.pointer;
  looping = v.looping;
  fits = tt;
  calm = v.calm;
}

Fits-quits :
    (o : Owner) (r : Runner) (q : ℕ)
    → (o ≡ returned) ⊎ (o ≡ joining)
    → Fits o r q
    → Fits o r (suc q)
unfolding Fits
Fits-quits fresh r q h f = absurd (elim h [ inl e ↦ cc | inr e ↦ cc ])
Fits-quits waiting r q h f = absurd (elim h [ inl e ↦ cc | inr e ↦ cc ])
Fits-quits sleeping r q h f = absurd (elim h [ inl e ↦ cc | inr e ↦ cc ])
Fits-quits returned r q h f = f
Fits-quits joining r q h f = f
Fits-quits destroyed r q h f = tt
Fits-quits terminated r q h f = tt

Step-Inv : {t t' : LoopThread} → Step t t' → Inv t → Inv t'
unfolding Fits
Step-Inv (by_runner s) v = RunnerStep-Inv s v
Step-Inv (by_owner s) v = OwnerStep-Inv s v
Step-Inv wakes v = record {
  pointer = v.pointer;
  looping = v.looping;
  fits = (v.fits.0, v.fits.1);
  calm = v.calm;
}
Step-Inv (other_quits {l = l} {r = r} {o = o} {q = q} h) v = record {
  pointer = v.pointer;
  looping = quit-looping l ∙ v.looping;
  fits = Fits-quits o r q h v.fits;
  calm = λ z. absurd (suc_zero q z);
}

pub Reach-Inv : {t : LoopThread} → Reach t → Inv t
unfolding Fits new_event_loop
Reach-Inv here = record {
  pointer = refl;
  looping = refl;
  fits = (refl, refl);
  calm = λ e. (refl, refl);
}
Reach-Inv (after h s) = Step-Inv s (Reach-Inv h)
