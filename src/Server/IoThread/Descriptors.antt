-- ===== src/Server/IoThread/Descriptors.antt =====
-- The descriptors of a handler.
use gobjfs.Base.{
  ℕ, ◌+◌, ◌≡◌, ℤ, false, List, [], ◌∷◌, Option, none, some, eq_ℤ, if◌then◌else◌, arith,
}
use gobjfs.File.{EventFd}
use gobjfs.File.Init.{event_fd_close, event_fd_get_read_fd}
use gobjfs.Server.IoThread.{
  IoSite, IoHandler, start_thread, init_notifier, open_epoll, new_io_handler, destroy_notifier,
  end_thread, close_files, delete_io_handler,
}

abbrev pub times : ℤ → List ℤ → ℕ
times fd [] = 0
times fd (x ∷ xs) = (if eq_ℤ x fd then 1 else 0) + times fd xs

abbrev pub held : ℤ → Option ℤ → ℕ
held fd none = 0
held fd (some x) = if eq_ℤ x fd then 1 else 0

abbrev pub held_pipe : ℤ → Option EventFd → ℕ
held_pipe fd none = 0
held_pipe fd (some e) = (if eq_ℤ e.write_fd fd then 1 else 0) + (if eq_ℤ e.read_fd fd then 1 else 0)

-- The handler still holds what it opened and did not close, and its thread has a way to be told to end.
pub record HoldsAll (h : IoHandler) : Type 0 where
  pub each :
      (fd : ℤ)
      → times fd h.opened
        ≡ times fd h.closed
          + held_pipe fd h.event_handle
          + held fd h.epollfd
          + held fd h.shutdown_fd
  pub told : h.shutdown_fd ≡ none → h.joinable ≡ false

pub new_io_handler-HoldsAll : (site : IoSite) → HoldsAll (new_io_handler site)
unfolding new_io_handler open_epoll init_notifier start_thread event_fd_get_read_fd
new_io_handler-HoldsAll site = record { each = λ fd. ground arith; told = λ e. ground arith }

delete_io_handler-HoldsAll :
    (h : IoHandler)
    → HoldsAll h
    → (fd : ℤ) → times fd (delete_io_handler h).closed ≡ times fd (delete_io_handler h).opened
unfolding delete_io_handler end_thread close_files destroy_notifier event_fd_close
delete_io_handler-HoldsAll h v fd = ground (arith, v.each fd)

delete_io_handler-joinable : (h : IoHandler) → HoldsAll h → (delete_io_handler h).joinable ≡ false
unfolding delete_io_handler end_thread close_files destroy_notifier
delete_io_handler-joinable h v = ground (arith, v.told)

-- Whatever fails in the constructor of a handler, its destructor closes each descriptor as often as it was
-- opened, and no other, and leaves no thread.
pub delete_io_handler-new_io_handler :
    (site : IoSite) (fd : ℤ)
    → let h = delete_io_handler (new_io_handler site) in
      (times fd h.closed ≡ times fd h.opened) × (h.joinable ≡ false)
delete_io_handler-new_io_handler site fd =
    let v = new_io_handler-HoldsAll site in
    (delete_io_handler-HoldsAll _ v fd, delete_io_handler-joinable _ v)
