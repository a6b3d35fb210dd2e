-- ===== src/Admin/ContentStream/Fresh.antt =====
-- What holds of the flags of the stream of the administration after each of its operations.
use kiosk_screen.Prelude.{
  ℕ, ◌+◌, ◌-◌, String, ◌≡◌, refl, Bool, true, false, not, ◌&&◌, ◌||◌, Option, none, some, List, [],
  ◌∷◌, ◌++◌, ◌==◌, is_some, arith, if_both, if_each,
}
use kiosk_screen.Admin.ContentStream.{
  ContentStream, clear_stale_timer, close_source, open_source, start_stream, stop_stream,
  set_drag_deferred, handle_inventory_signal, source_opened, arm_stale_timer, source_failed,
  handle_now_playing, stale_timer_fired, auth_verification_over,
}

-- A connected stream is not stale and no timer runs towards that; one that was stopped is off
-- altogether; a change is held back only during a drag.
pub record IsFresh (s : ContentStream) : Type 0 where
  pub fresh : (s.connected && (s.stale || s.stale_timer)) ≡ false
  pub decided : (s.stale && s.stale_timer) ≡ false
  pub linked : (s.connected && not s.event_source) ≡ false
  pub stopped :
      ((s.event_source || s.stale || s.stale_timer || s.had_open || s.pending_while_drag)
        && not s.started)
      ≡ false
  pub silent : (is_some s.now_playing_content_id && not s.started) ≡ false
  pub deferred : (s.pending_while_drag && not s.drag_deferred) ≡ false

pub clear_stale_timer-IsFresh : (s : ContentStream) → IsFresh s → IsFresh (clear_stale_timer s)
unfolding clear_stale_timer
clear_stale_timer-IsFresh s h = record {
  fresh = ground (arith, h.fresh);
  decided = refl;
  linked = h.linked;
  stopped = ground (arith, h.stopped);
  silent = h.silent;
  deferred = h.deferred;
}

pub start_stream-IsFresh :
    (user : Bool) (s : ContentStream) → IsFresh s → IsFresh (start_stream user s)
unfolding start_stream open_source close_source clear_stale_timer
start_stream-IsFresh user s h =
    if_each IsFresh (s.started || not user) (λ idle. h)
      λ starts. record {
        fresh = ground (arith, h.fresh);
        decided = refl;
        linked = ground arith;
        stopped = ground arith;
        silent = ground arith;
        deferred = h.deferred;
      }

pub stop_stream-IsFresh : (s : ContentStream) → IsFresh (stop_stream s)
unfolding stop_stream close_source clear_stale_timer
stop_stream-IsFresh s = record {
  fresh = refl;
  decided = refl;
  linked = refl;
  stopped = refl;
  silent = refl;
  deferred = refl;
}

pub set_drag_deferred-IsFresh :
    (deferred : Bool) (s : ContentStream) → IsFresh s → IsFresh (set_drag_deferred deferred s)
unfolding set_drag_deferred
set_drag_deferred-IsFresh deferred s h =
    if_each IsFresh (not deferred && s.pending_while_drag)
      (λ ends. record {
        fresh = h.fresh;
        decided = h.decided;
        linked = h.linked;
        stopped = ground (arith, h.stopped);
        silent = h.silent;
        deferred = refl;
      })
      λ goes. record {
        fresh = h.fresh;
        decided = h.decided;
        linked = h.linked;
        stopped = h.stopped;
        silent = h.silent;
        deferred = ground (arith, goes);
      }

pub handle_inventory_signal-IsFresh :
    (s : ContentStream) → s.event_source ≡ true → IsFresh s → IsFresh (handle_inventory_signal s)
unfolding handle_inventory_signal
handle_inventory_signal-IsFresh s is_open h =
    if_each IsFresh s.drag_deferred
      (λ drags. record {
        fresh = h.fresh;
        decided = h.decided;
        linked = h.linked;
        stopped = ground (arith, h.stopped);
        silent = h.silent;
        deferred = ground (arith, drags);
      })
      λ rests. record {
        fresh = h.fresh;
        decided = h.decided;
        linked = h.linked;
        stopped = h.stopped;
        silent = h.silent;
        deferred = h.deferred;
      }

pub source_opened-IsFresh :
    (s : ContentStream) → s.event_source ≡ true → IsFresh s → IsFresh (source_opened s)
unfolding source_opened clear_stale_timer
source_opened-IsFresh s is_open h =
    let starts : s.started ≡ true = ground (arith, h.stopped, is_open) in
    if_each (λ (t : ContentStream). IsFresh (record t { had_open = true })) s.had_open
      (λ again. record {
        fresh = refl;
        decided = refl;
        linked = ground (arith, is_open);
        stopped = ground (arith, starts);
        silent = h.silent;
        deferred = h.deferred;
      })
      λ first. record {
        fresh = refl;
        decided = refl;
        linked = ground (arith, is_open);
        stopped = ground (arith, starts);
        silent = h.silent;
        deferred = h.deferred;
      }

pub source_failed-IsFresh : (s : ContentStream) → IsFresh s → IsFresh (source_failed s)
unfolding source_failed arm_stale_timer
source_failed-IsFresh s h =
    if_each IsFresh (not s.started)
      (λ off. record {
        fresh = refl;
        decided = h.decided;
        linked = refl;
        stopped = h.stopped;
        silent = h.silent;
        deferred = h.deferred;
      })
      λ on.
        if_each (λ (t : ContentStream). IsFresh (record t { verifications = t.verifications + 1 }))
          (s.stale_timer || s.stale)
          (λ waits. record {
            fresh = refl;
            decided = h.decided;
            linked = refl;
            stopped = h.stopped;
            silent = h.silent;
            deferred = h.deferred;
          })
          λ arms. record {
            fresh = refl;
            decided = ground (arith, arms);
            linked = refl;
            stopped = ground (arith, on);
            silent = h.silent;
            deferred = h.deferred;
          }

pub handle_now_playing-IsFresh :
    (payload : Option (Option String × Option String)) (s : ContentStream)
    → s.event_source ≡ true
    → IsFresh s
    → IsFresh (handle_now_playing payload s)
unfolding handle_now_playing
handle_now_playing-IsFresh none s is_open h = record {
  fresh = h.fresh;
  decided = h.decided;
  linked = h.linked;
  stopped = h.stopped;
  silent = refl;
  deferred = h.deferred;
}
handle_now_playing-IsFresh (some (content_id, title)) s is_open h = record {
  fresh = h.fresh;
  decided = h.decided;
  linked = h.linked;
  stopped = h.stopped;
  silent = ground (arith, h.stopped, is_open);
  deferred = h.deferred;
}

pub stale_timer_fired-IsFresh : (s : ContentStream) → IsFresh s → IsFresh (stale_timer_fired s)
unfolding stale_timer_fired
stale_timer_fired-IsFresh s h =
    if_each IsFresh (not s.stale_timer) (λ idle. h)
      λ armed.
        if_each IsFresh (not s.connected && s.started)
          (λ lost. record {
            fresh = ground (arith, lost);
            decided = refl;
            linked = h.linked;
            stopped = ground (arith, lost);
            silent = h.silent;
            deferred = h.deferred;
          })
          λ kept. record {
            fresh = ground (arith, h.fresh);
            decided = ground arith;
            linked = h.linked;
            stopped = ground (arith, h.stopped);
            silent = h.silent;
            deferred = h.deferred;
          }

pub verified-IsFresh :
    (n : ℕ) (s : ContentStream) → IsFresh s → IsFresh (record s { verifications = n })
verified-IsFresh n s h = record {
  fresh = h.fresh;
  decided = h.decided;
  linked = h.linked;
  stopped = h.stopped;
  silent = h.silent;
  deferred = h.deferred;
}

pub navigated-IsFresh :
    (routes : List String) (s : ContentStream)
    → IsFresh s
    → IsFresh (record s { navigations = routes })
navigated-IsFresh routes s h = record {
  fresh = h.fresh;
  decided = h.decided;
  linked = h.linked;
  stopped = h.stopped;
  silent = h.silent;
  deferred = h.deferred;
}

pub auth_verification_over-IsFresh :
    (known : Bool) (s : ContentStream) → IsFresh s → IsFresh (auth_verification_over known s)
unfolding auth_verification_over
auth_verification_over-IsFresh known s h =
    let over = record s { verifications = s.verifications - 1 } in
    if_both IsFresh (s.verifications == 0) h (
      if_both IsFresh known (verified-IsFresh (s.verifications - 1) s h) (
        navigated-IsFresh (s.navigations ++ "/login" ∷ []) (stop_stream over)
          (stop_stream-IsFresh over)))
