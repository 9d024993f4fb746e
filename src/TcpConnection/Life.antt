-- ===== src/TcpConnection/Life.antt =====
-- The stages of a connection (network/src/TcpConnection.cc) as its owner and the application see them:
-- what may be called back or removed in each, and the state that goes with it.
use proto_rpc.Prelude.{
  ◌≡◌, refl, sym, ap, ◌∙◌, ◌⊎◌, inr, Bool, true, false, ◌||◌, Option, none, some, List, [], ◌∷◌,
  ◌++◌, append_assoc, append-nil, ◌>>=◌, if◌then◌else◌,
}
use proto_rpc.Channel.{Events, none_event}
use proto_rpc.TcpConnection.{
  Connection, State, connected, connecting, disconnecting, disconnected, Effect, written,
  shut_down_write, queued_write_complete, queued_force_close, queued_shutdown, queued_send,
  connection_callback, message_callback, close_callback, removed_channel, log, log_if, is_connected,
  is_disconnected, is_disconnecting,
}

-- The stages of a connection as its owner and the application see them.
pub data Life : Type 0 where
  fresh live closing closed gone : Life

-- Effects on the socket and on the loop, which may come at any time.
unfoldable pub is_silent : Effect → Bool
is_silent connection_callback = false
is_silent message_callback = false
is_silent close_callback = false
is_silent removed_channel = false
is_silent _ = true

unfoldable pub shown : Life → Effect → Option Life
shown fresh connection_callback = some live
shown live message_callback = some live
shown live connection_callback = some closing
shown closing close_callback = some closed
shown closing removed_channel = some gone
shown closed removed_channel = some gone
shown l e = none

-- What may come next.
unfoldable pub follow : Life → Effect → Option Life
follow l e = if is_silent e then some l else shown l e

unfoldable pub follow_all : Life → List Effect → Option Life
follow_all l [] = some l
follow_all l (e ∷ es) = follow l e >>= λ l'. follow_all l' es

-- The stage that goes with the state.
unfoldable pub Fits : State → Events → Life → Type 0
Fits connecting ev l = (l ≡ fresh) × (ev ≡ none_event)
Fits connected ev l = l ≡ live
Fits disconnecting ev l = l ≡ live
Fits disconnected ev l = ((l ≡ closed) ⊎ (l ≡ gone)) × (ev ≡ none_event)

unfoldable pub Lives : Connection → Type 0
Lives c = (l : Life) × (follow_all fresh c.effects ≡ some l) × Fits c.state c.events l

-- Whether the channel has been taken off the loop.
unfoldable pub is_removed : Effect → Bool
is_removed removed_channel = true
is_removed _ = false

unfoldable pub removed : List Effect → Bool
removed [] = false
removed (e ∷ es) = is_removed e || removed es

follow_all-append :
    (l : Life) (es fs : List Effect)
    → follow_all l (es ++ fs) ≡ (follow_all l es >>= λ l'. follow_all l' fs)
unfolding follow_all
follow_all-append l [] fs = refl
follow_all-append l (e ∷ es) fs = through (follow l e) (λ l'. follow_all-append l' es fs)
  where
    through :
        (o : Option Life)
        → ((l' : Life) → follow_all l' (es ++ fs) ≡ (follow_all l' es >>= λ k. follow_all k fs))
        → (o >>= λ l'. follow_all l' (es ++ fs))
          ≡ ((o >>= λ l'. follow_all l' es) >>= λ l'. follow_all l' fs)
    through none h = refl
    through (some l') h = h l'

-- What an operation logged, from a stage to the next.
pub extended :
    (l l' : Life) (es more : List Effect)
    → follow_all fresh es ≡ some l
    → follow_all l more ≡ some l'
    → follow_all fresh (es ++ more) ≡ some l'
extended l l' es more e f = follow_all-append fresh es more ∙ rw e f

-- A step that the application does not see.
pub record Quiet (c c' : Connection) : Type 0 where
  pub more : List Effect
  pub logged : c'.effects ≡ c.effects ++ more
  pub unseen : (l : Life) → follow_all l more ≡ some l
  pub fits : (l : Life) → Fits c.state c.events l → Fits c'.state c'.events l

pub Quiet-Lives : (c c' : Connection) → Quiet c c' → Lives c → Lives c'
unfolding Lives
Quiet-Lives c c' q (l, e, f) =
    (l, ap (follow_all fresh) q.logged ∙ extended l l c.effects q.more e (q.unseen l), q.fits l f)

pub Quiet-trans : (c d e : Connection) → Quiet c d → Quiet d e → Quiet c e
Quiet-trans c d e q r = record {
  more = q.more ++ r.more;
  logged = r.logged ∙ ap (λ t. t ++ r.more) q.logged ∙ append_assoc c.effects q.more r.more;
  unseen = λ l. follow_all-append l q.more r.more ∙ rw (q.unseen l) (r.unseen l);
  fits = λ l f. r.fits l (q.fits l f);
}

-- A change of the fields that the stages do not mention.
pub Quiet-silent :
    (c c' : Connection)
    → c'.effects ≡ c.effects
    → ((l : Life) → Fits c.state c.events l → Fits c'.state c'.events l)
    → Quiet c c'
unfolding follow_all
Quiet-silent c c' e f = record {
  more = [];
  logged = e ∙ sym (append-nil c.effects);
  unseen = λ l. refl;
  fits = f;
}

pub Quiet-log : (e : Effect) (c : Connection) → is_silent e ≡ true → Quiet c (log e c)
unfolding follow_all follow
Quiet-log e c h = record { more = e ∷ []; logged = refl; unseen = λ l. rw h refl; fits = λ l f. f }

pub Quiet-log_if :
    (test : Bool) (e : Effect) (c : Connection) → is_silent e ≡ true → Quiet c (log_if test e c)
unfolding log_if
Quiet-log_if true e c h = Quiet-log e c h
Quiet-log_if false e c h = Quiet-silent c c refl (λ l f. f)

unwatched-watched : (ev : Events) → ev ≡ none_event → (ev.read || ev.write) ≡ true → ⊥
unwatched-watched ev e w = clash (sym w ∙ ap (λ v. v.read || v.write) e)
  where
    clash : true ≡ false → ⊥
    clash h = cc

-- Connected or disconnecting.
unfoldable pub is_up : State → Bool
is_up s = is_connected s || is_disconnecting s

-- A connection that is up may watch anything.
pub Fits-live :
    (s : State) (ev ev' : Events) (l : Life) → is_up s ≡ true → Fits s ev l → Fits s ev' l
unfolding Fits is_up is_connected is_disconnecting
Fits-live connecting ev ev' l d f = absurd (cc)
Fits-live connected ev ev' l d f = f
Fits-live disconnecting ev ev' l d f = f
Fits-live disconnected ev ev' l d f = absurd (cc)

-- Disconnecting rather than connected makes no difference.
pub Fits-disconnecting :
    (s : State) (ev : Events) (l : Life) → is_up s ≡ true → Fits s ev l → Fits disconnecting ev l
unfolding Fits is_up is_connected is_disconnecting
Fits-disconnecting connecting ev l d f = absurd (cc)
Fits-disconnecting connected ev l d f = f
Fits-disconnecting disconnecting ev l d f = f
Fits-disconnecting disconnected ev l d f = absurd (cc)

pub Fits-up : (s : State) (ev : Events) (l : Life) → is_up s ≡ true → Fits s ev l → l ≡ live
unfolding Fits is_up is_connected is_disconnecting
Fits-up connecting ev l d f = absurd (cc)
Fits-up connected ev l d f = f
Fits-up disconnecting ev l d f = f
Fits-up disconnected ev l d f = absurd (cc)

-- A channel that watches something is that of a connection that is up.
pub Fits-watched :
    (s : State) (ev : Events) (l : Life)
    → Fits s ev l
    → (ev.read || ev.write) ≡ true
    → is_up s ≡ true
unfolding Fits is_up is_connected is_disconnecting
Fits-watched connecting ev l (f, e) w = absurd (unwatched-watched ev e w)
Fits-watched connected ev l f w = refl
Fits-watched disconnecting ev l f w = refl
Fits-watched disconnected ev l (f, e) w = absurd (unwatched-watched ev e w)

follow-gone : (l : Life) (e : Effect) → is_removed e ≡ false → follow l e ≡ some gone → l ≡ gone
unfolding follow is_silent shown is_removed
follow-gone l (written bs) r f = cc
follow-gone l shut_down_write r f = cc
follow-gone l queued_write_complete r f = cc
follow-gone l queued_force_close r f = cc
follow-gone l queued_shutdown r f = cc
follow-gone l (queued_send bs) r f = cc
follow-gone l removed_channel r f = absurd (cc)
follow-gone fresh connection_callback r f = cc
follow-gone live connection_callback r f = cc
follow-gone closing connection_callback r f = cc
follow-gone closed connection_callback r f = cc
follow-gone gone connection_callback r f = refl
follow-gone fresh message_callback r f = cc
follow-gone live message_callback r f = cc
follow-gone closing message_callback r f = cc
follow-gone closed message_callback r f = cc
follow-gone gone message_callback r f = refl
follow-gone fresh close_callback r f = cc
follow-gone live close_callback r f = cc
follow-gone closing close_callback r f = cc
follow-gone closed close_callback r f = cc
follow-gone gone close_callback r f = refl

or-false : (a b : Bool) → (a || b) ≡ false → (a ≡ false) × (b ≡ false)
or-false true b h = absurd (cc)
or-false false b h = (refl, h)

-- Only the removal of the channel leads to the last stage.
pub removed-gone :
    (l : Life) (es : List Effect) → removed es ≡ false → follow_all l es ≡ some gone → l ≡ gone
unfolding follow_all removed
removed-gone l [] r f = cc
removed-gone l (e ∷ es) r f =
    by_step (follow l e) refl f
      (λ l' g. removed-gone l' es (or-false (is_removed e) (removed es) r).1 g)
  where
    by_step :
        (o : Option Life)
        → follow l e ≡ o
        → (o >>= λ l'. follow_all l' es) ≡ some gone
        → ((l' : Life) → follow_all l' es ≡ some gone → l' ≡ gone)
        → l ≡ gone
    by_step none g f h = cc
    by_step (some l') g f h =
        follow-gone l e (or-false (is_removed e) (removed es) r).0 (g ∙ ap some (h l' f))

pub Fits-down :
    (s : State) (ev : Events) (l : Life)
    → is_disconnected s ≡ true
    → Fits s ev l
    → (is_connected s ≡ false) × ((l ≡ closed) ⊎ (l ≡ gone)) × (ev ≡ none_event)
unfolding Fits is_connected is_disconnected
Fits-down connecting ev l d f = absurd (cc)
Fits-down connected ev l d f = absurd (cc)
Fits-down disconnecting ev l d f = absurd (cc)
Fits-down disconnected ev l d (f, g) = (refl, f, g)

pub Fits-gone : (s : State) → is_disconnected s ≡ true → Fits s none_event gone
unfolding Fits is_disconnected
Fits-gone connecting d = absurd (cc)
Fits-gone connected d = absurd (cc)
Fits-gone disconnecting d = absurd (cc)
Fits-gone disconnected d = (inr refl, refl)
