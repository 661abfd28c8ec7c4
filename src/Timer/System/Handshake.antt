-- ===== src/Timer/System/Handshake.antt =====
-- The interrupt and the semaphore between `timer_configure` or `timer_destroy` and `timer_thread`:
-- timer_posix.c, timer_winapi.c and timer_uwp.c.
use daemonlib.Timer.{Timer}
use daemonlib.Timer.System.{System}
