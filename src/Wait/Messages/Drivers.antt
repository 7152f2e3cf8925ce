-- ===== src/Wait/Messages/Drivers.antt =====
-- The drivers of lab_wait_event.c and lab_poll.c as instances of the interface of Wait.Messages.
use linux_foundation_embedde.Base.{ℕ, ◌≡◌, Bool, arith}
use linux_foundation_embedde.Wait.{State, done, WaitQueue}
use linux_foundation_embedde.Wait.Event
use linux_foundation_embedde.Wait.Poll
use linux_foundation_embedde.Wait.Messages.{IsQuiet, Handlers, called}

pub event_read :
    (signalled : ℕ → Bool) (i : ℕ) (s : State)
    → IsQuiet signalled s
    → IsQuiet (called signalled i (s.readers i)) (Event.mycdrv_read i s)
unfolding Event.mycdrv_read
event_read signalled i s v = record {
  unset = ground (arith, v.unset, v.waiting i);
  waiting = λ j e. ground (arith, v.unset, v.waiting i, v.waiting j, e);
  resting = ground (arith, v.resting);
}

pub poll_read :
    (signalled : ℕ → Bool) (i : ℕ) (s : State)
    → IsQuiet signalled s
    → IsQuiet (called signalled i (s.readers i)) (Poll.mycdrv_read i s)
unfolding Poll.mycdrv_read
poll_read signalled i s v = record {
  unset = ground (arith, v.unset, v.waiting i);
  waiting = λ j e. ground (arith, v.unset, v.waiting i, v.waiting j, e);
  resting = ground (arith, v.resting);
}

module _ (q : WaitQueue) where
  pub event_write :
      (signalled : ℕ → Bool) (s : State)
      → s.writer ≡ done
      → IsQuiet signalled s
      → IsQuiet signalled (Event.mycdrv_write q s)
  unfolding Event.mycdrv_write
  event_write signalled s e v = record {
    unset = ground (arith, v.unset);
    waiting = λ j b. ground (arith, v.waiting j, b, e, q.spares s.readers j);
    resting = ground arith;
  }

  pub poll_write :
      (signalled : ℕ → Bool) (s : State)
      → s.writer ≡ done
      → IsQuiet signalled s
      → IsQuiet signalled (Poll.mycdrv_write q s)
  unfolding Poll.mycdrv_write
  poll_write signalled s e v = record {
    unset = ground (arith, v.unset);
    waiting = λ j b. ground (arith, v.waiting j, b, e, q.spares s.readers j);
    resting = ground arith;
  }

  abbrev pub event_handlers : Handlers
  event_handlers = record {
    mycdrv_read = Event.mycdrv_read;
    mycdrv_write = Event.mycdrv_write q;
    quiet_read = event_read;
    quiet_write = event_write;
  }

  abbrev pub poll_handlers : Handlers
  poll_handlers = record {
    mycdrv_read = Poll.mycdrv_read;
    mycdrv_write = Poll.mycdrv_write q;
    quiet_read = poll_read;
    quiet_write = poll_write;
  }
