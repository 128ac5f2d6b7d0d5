-- ===== src/Sockets/Calls.antt =====
-- The socket macros of include/picoos-lwip.h: each passes the lwIP socket of a slot on to lwIP.
-- Pointers and numbers are numbers here.
use picoos_lwip.Prelude.{ℕ, Option, some, ◌>>=◌}
use picoos_lwip.Sockets.Env.{Uos}
use picoos_lwip.Sockets.{net_lwip_fd}

-- The calls of lwIP that the macros use. A socket may be -1, and so may a result, which is `none`.
pub record LwipCalls (State : Type 0) : Type 0 where
  pub lwip_bind : Option ℕ → ℕ → ℕ → State → Option ℕ × State
  pub lwip_shutdown : Option ℕ → ℕ → State → Option ℕ × State
  pub lwip_getpeername : Option ℕ → ℕ → ℕ → State → Option ℕ × State
  pub lwip_getsockname : Option ℕ → ℕ → ℕ → State → Option ℕ × State
  pub lwip_setsockopt : Option ℕ → ℕ → ℕ → ℕ → ℕ → State → Option ℕ × State
  pub lwip_connect : Option ℕ → ℕ → ℕ → State → Option ℕ × State
  pub lwip_listen : Option ℕ → ℕ → State → Option ℕ × State
  pub lwip_recv : Option ℕ → ℕ → ℕ → ℕ → State → Option ℕ × State
  pub lwip_recvfrom : Option ℕ → ℕ → ℕ → ℕ → ℕ → ℕ → State → Option ℕ × State
  pub lwip_send : Option ℕ → ℕ → ℕ → ℕ → State → Option ℕ × State
  pub lwip_sendmsg : Option ℕ → ℕ → ℕ → State → Option ℕ × State
  pub lwip_sendto : Option ℕ → ℕ → ℕ → ℕ → ℕ → ℕ → State → Option ℕ × State
  pub lwip_writev : Option ℕ → ℕ → ℕ → State → Option ℕ × State

module _ (u : Uos) (l : LwipCalls u.State) where
  open u use {State}

  unfoldable pub bind : ℕ → ℕ → ℕ → State → Option (Option ℕ × State)
  unfolding net_lwip_fd
  bind n name namelen s = do fd ← net_lwip_fd u n s; some (l.lwip_bind fd name namelen s)

  unfoldable pub shutdown : ℕ → ℕ → State → Option (Option ℕ × State)
  unfolding net_lwip_fd
  shutdown n how s = do fd ← net_lwip_fd u n s; some (l.lwip_shutdown fd how s)

  unfoldable pub getpeername : ℕ → ℕ → ℕ → State → Option (Option ℕ × State)
  unfolding net_lwip_fd
  getpeername n name namelen s = do
    fd ← net_lwip_fd u n s
    some (l.lwip_getpeername fd name namelen s)

  unfoldable pub getsockname : ℕ → ℕ → ℕ → State → Option (Option ℕ × State)
  unfolding net_lwip_fd
  getsockname n name namelen s = do
    fd ← net_lwip_fd u n s
    some (l.lwip_getsockname fd name namelen s)

  unfoldable pub setsockopt : ℕ → ℕ → ℕ → ℕ → ℕ → State → Option (Option ℕ × State)
  unfolding net_lwip_fd
  setsockopt n level optname optval optlen s = do
    fd ← net_lwip_fd u n s
    some (l.lwip_setsockopt fd level optname optval optlen s)

  unfoldable pub connect : ℕ → ℕ → ℕ → State → Option (Option ℕ × State)
  unfolding net_lwip_fd
  connect n name namelen s = do fd ← net_lwip_fd u n s; some (l.lwip_connect fd name namelen s)

  unfoldable pub listen : ℕ → ℕ → State → Option (Option ℕ × State)
  unfolding net_lwip_fd
  listen n backlog s = do fd ← net_lwip_fd u n s; some (l.lwip_listen fd backlog s)

  unfoldable pub recv : ℕ → ℕ → ℕ → ℕ → State → Option (Option ℕ × State)
  unfolding net_lwip_fd
  recv n mem len flags s = do fd ← net_lwip_fd u n s; some (l.lwip_recv fd mem len flags s)

  unfoldable pub recvfrom : ℕ → ℕ → ℕ → ℕ → ℕ → ℕ → State → Option (Option ℕ × State)
  unfolding net_lwip_fd
  recvfrom n mem len flags from fromlen s = do
    fd ← net_lwip_fd u n s
    some (l.lwip_recvfrom fd mem len flags from fromlen s)

  unfoldable pub send : ℕ → ℕ → ℕ → ℕ → State → Option (Option ℕ × State)
  unfolding net_lwip_fd
  send n dataptr size flags s = do
    fd ← net_lwip_fd u n s
    some (l.lwip_send fd dataptr size flags s)

  unfoldable pub sendmsg : ℕ → ℕ → ℕ → State → Option (Option ℕ × State)
  unfolding net_lwip_fd
  sendmsg n message flags s = do fd ← net_lwip_fd u n s; some (l.lwip_sendmsg fd message flags s)

  unfoldable pub sendto : ℕ → ℕ → ℕ → ℕ → ℕ → ℕ → State → Option (Option ℕ × State)
  unfolding net_lwip_fd
  sendto n dataptr size flags to tolen s = do
    fd ← net_lwip_fd u n s
    some (l.lwip_sendto fd dataptr size flags to tolen s)

  unfoldable pub writev : ℕ → ℕ → ℕ → State → Option (Option ℕ × State)
  unfolding net_lwip_fd
  writev n iov iovcnt s = do fd ← net_lwip_fd u n s; some (l.lwip_writev fd iov iovcnt s)
