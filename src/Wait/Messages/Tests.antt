-- ===== src/Wait/Messages/Tests.antt =====
-- The theorem on the sleeping readers' messages at a concrete run.
use linux_foundation_embedde.Base.{false, ◌+◌, ◌≡◌, ◌≢◌, arith, refl, here, next, Chain}
use linux_foundation_embedde.Kernel.UserAccess.{zeros, splice}
use linux_foundation_embedde.CharDevice.{ok, Disk}
use linux_foundation_embedde.CharDevice.Bounds.{room}
use linux_foundation_embedde.Device.{Device}
use linux_foundation_embedde.Device.Messages.{message, string}
use linux_foundation_embedde.Wait.{WaitQueue, Reader, asleep, starting, finished, initial}
use linux_foundation_embedde.Wait.Event
use linux_foundation_embedde.Wait.Messages.{Run, called, reader, writer, Step}
use linux_foundation_embedde.Wait.Messages.Drivers.{event_handlers}
use linux_foundation_embedde.Wait.Messages.Told.{start, delivered, readers_get_message}

rouse : Reader → Reader
rouse asleep = starting
rouse r = r

wakes : (r : Reader) → r ≡ asleep → rouse r ≡ starting
unfolding rouse
wakes r e = ground arith

spares : (r : Reader) → r ≢ asleep → rouse r ≡ r
unfolding rouse
spares r e = ground arith

abbrev queue : WaitQueue
queue = record {
  wake_up_interruptible = λ readers i. rouse (readers i);
  wakes = λ readers i. wakes (readers i);
  spares = λ readers i. spares (readers i);
}

-- A device that moves what fits.
abbrev ram : Device
ram = record {
  read = λ d buf lbuf pos.
      let n = room d.ramdisk_size pos lbuf in
      ok (record { nbytes = n; pos = pos + n; bytes = splice buf 0 d.bytes pos n });
  write = λ d buf lbuf pos.
      let n = room d.ramdisk_size pos lbuf in
      ok (record { nbytes = n; pos = pos + n; bytes = splice d.bytes pos buf 0 n });
  read_lem = λ d v buf lbuf pos inside h. refl;
  write_lem = λ d v buf lbuf pos inside h. refl;
}

abbrev blank : Disk
blank = record { bytes = zeros; allocated = 40; ramdisk_size = 40 }

-- Reader 3 comes to its transfer behind a write that has set the flag.
abbrev come : Run
come = record {
  wait = Event.mycdrv_read 3 (
      Event.mycdrv_read 3 (
        Event.mycdrv_read 3 (
          Event.mycdrv_write queue (Event.mycdrv_write queue (Event.mycdrv_write queue initial)))));
  disk = record { bytes = splice zeros 0 (string message) 0 32; allocated = 40; ramdisk_size = 40 };
  buffers = λ i. zeros;
  signalled = called (λ i. false) 3 finished;
}

comes : Chain (Step (event_handlers queue) ram 32) (start blank (λ i. zeros)) come
unfolding reader writer Event.mycdrv_read Event.mycdrv_write
comes =
    next
      (next
        (next
          (next (next (next here (Step.write (start blank (λ i. zeros)) refl)) (Step.write _ refl))
            (Step.write _ refl))
          (Step.read 3 _ refl))
        (Step.read 3 _ refl))
      (Step.read 3 _ refl)

readers_get_message_example :
    ((t : Run) × (writer (event_handlers queue) ram 32 come ≡ ok t))
    × ((t : Run) × (reader (event_handlers queue) ram 32 3 come ≡ ok t)
        × (t.buffers 3
            ≡ delivered 32
                (come.wait.readers 3)
                (come.signalled 3)
                come.disk.bytes
                (come.buffers 3)))
readers_get_message_example =
    readers_get_message (event_handlers queue) ram 32 (omega arith) blank (λ i. zeros) (omega arith)
      (omega arith) comes 3
