-- ===== src/Nbd/Device.antt =====
-- The life of an `NBDDriverProxy` of src/nbd_driver_proxy.cpp: its constructors and destructor,
-- `Disconnect`, and the thread that serves the device; `Ioctl` of src/ioctl_wrapper.cpp.
use greencloud.Base.{
  ℕ, ◌+◌, ◌*◌, ◌/◌, ◌%◌, ◌≡◌, Bool, true, false, List, [], ◌∷◌, ◌++◌, Option, Outcome, done, fails,
  ◌>>=◌, ◌>>◌, ◌⊎◌, guard, or_fail, runtime_error, ioctl_error, exits, if◌then◌else◌, ◌==◌, arith,
}

-- What the kernel answers: `socketpair`, `open` of the device, and `ioctl` on a descriptor with a
-- request and an argument, 0 or the `errno` of its failure. Behind them the requests of linux/nbd.h
-- and its flags.
pub record Kernel : Type 0 where
  pub socketpair : Option (ℕ × ℕ)
  pub open_device : Option ℕ
  pub ioctl : ℕ → ℕ → ℕ → ℕ
  pub set_sock : ℕ
  pub set_blksize : ℕ
  pub set_size_blocks : ℕ
  pub set_flags : ℕ
  pub do_it : ℕ
  pub clear_que : ℕ
  pub clear_sock : ℕ
  pub nbd_disconnect : ℕ
  pub send_flags : ℕ

-- `IoctlError::NO_FLAGS` of include/ioctl_wrapper.hpp is -1; `ioctl` takes it as 64 bits.
abbrev pub no_flags : ℕ
no_flags = 18446744073709551615

abbrev pub default_num_blocks : ℕ
default_num_blocks = 1024

pub record NbdDriverProxy : Type 0 where
  pub connected : Bool
  pub req_fd : ℕ
  pub nbd_fd : ℕ
  pub file_fd : ℕ

-- `Ioctl`, with the call that it made: the request and its argument.
unfoldable pub checked_ioctl : Kernel → ℕ → ℕ → ℕ → Outcome (ℕ × ℕ)
checked_ioctl k fd request flags = do
  guard (k.ioctl fd request flags == 0) (ioctl_error (k.ioctl fd request flags))
  done (request, flags)

unfoldable pub init_device : Kernel → ℕ → ℕ → Outcome (ℕ × List (ℕ × ℕ))
unfolding checked_ioctl
init_device k blk_size num_blks = do
  file_fd ← or_fail k.open_device runtime_error
  size ← checked_ioctl k file_fd k.set_blksize blk_size
  blocks ← checked_ioctl k file_fd k.set_size_blocks num_blks
  clear ← checked_ioctl k file_fd k.clear_sock no_flags
  done (file_fd, size ∷ blocks ∷ clear ∷ [])

-- The constructor with a block size, up to the start of the thread.
unfoldable pub create : Kernel → ℕ → ℕ → Outcome (NbdDriverProxy × List (ℕ × ℕ))
unfolding init_device
create k block_size num_blocks = do
  (req, nbd) ← or_fail k.socketpair runtime_error
  (file, calls) ← init_device k block_size num_blocks
  done (record { connected = true; req_fd = req; nbd_fd = nbd; file_fd = file }, calls)

-- The constructor with a storage size.
unfoldable pub create_for : Kernel → ℕ → Outcome (NbdDriverProxy × List (ℕ × ℕ))
unfolding create
create_for k storage_size = create k default_num_blocks (storage_size / default_num_blocks)

-- `Disconnect`, with the descriptors that it closes. The thread is joined between the second and
-- the third; it returns when its sockets are closed.
unfoldable pub disconnect : Kernel → NbdDriverProxy → Outcome (NbdDriverProxy × List ℕ)
unfolding checked_ioctl
disconnect k p = do
  _ ← checked_ioctl k p.file_fd k.nbd_disconnect no_flags
  done (record p { connected = false }, p.req_fd ∷ p.nbd_fd ∷ p.file_fd ∷ [])

-- The destructor.
unfoldable pub destroy : Kernel → NbdDriverProxy → Outcome (NbdDriverProxy × List ℕ)
unfolding disconnect
destroy k p = if p.connected then disconnect k p else done (p, [])

-- `SetFlags`.
unfoldable pub set_flags_of : Kernel → ℕ → Outcome (List (ℕ × ℕ))
unfolding checked_ioctl
set_flags_of k file_fd =
    if k.send_flags == 0
    then done []
    else (do call ← checked_ioctl k file_fd k.set_flags k.send_flags; done (call ∷ []))

serve_device : Kernel → ℕ → ℕ → Outcome (List (ℕ × ℕ))
unfolding checked_ioctl set_flags_of
serve_device k file_fd socket_fd = do
  sock ← checked_ioctl k file_fd k.set_sock socket_fd
  flags ← set_flags_of k file_fd
  do_it ← checked_ioctl k file_fd k.do_it no_flags
  que ← checked_ioctl k file_fd k.clear_que no_flags
  clear ← checked_ioctl k file_fd k.clear_sock no_flags
  done (sock ∷ flags ++ do_it ∷ que ∷ clear ∷ [])

-- `catch (IoctlError&)` of the thread's function: any failure ends the process with -1.
or_exit : Outcome (List (ℕ × ℕ)) → Outcome (List (ℕ × ℕ))
or_exit (done calls) = done calls
or_exit (fails (ioctl_error e)) = fails (exits 255)
or_exit (fails f) = fails f

-- `ThreadFuncSetNBD`, behind `SubThreadSetSignals`, which is taken to succeed.
unfoldable pub thread_func : Kernel → ℕ → ℕ → Outcome (List (ℕ × ℕ))
unfolding serve_device or_exit
thread_func k file_fd socket_fd = or_exit (serve_device k file_fd socket_fd)

-- The life of a driver behind its constructor, with or without a call of `Disconnect`: the
-- descriptors that are closed, in order.
unfoldable pub life : Kernel → Bool → NbdDriverProxy → Outcome (List ℕ)
unfolding disconnect destroy
life k disconnects p = do
  (p', early) ← if disconnects then disconnect k p else done (p, [])
  (_, late) ← destroy k p'
  done (early ++ late)

-- If the kernel lets go of the device, a driver that was constructed closes its two sockets and the
-- device once each, in this order, whether `Disconnect` was called or not.
pub create-life :
    (k : Kernel) (blk n : ℕ) (disconnects : Bool) (p : NbdDriverProxy) (calls : List (ℕ × ℕ))
    → create k blk n ≡ done (p, calls)
    → k.ioctl p.file_fd k.nbd_disconnect no_flags ≡ 0
    → life k disconnects p ≡ done (p.req_fd ∷ p.nbd_fd ∷ p.file_fd ∷ [])
unfolding create init_device checked_ioctl life disconnect destroy
create-life k blk n disconnects p calls made lets = ground arith

-- The device that a storage size makes has blocks of 1024 bytes, and as many whole blocks as the
-- size in bytes has: less than one block of it is lost.
pub create_for-size :
    (k : Kernel) (size : ℕ) (p : NbdDriverProxy) (calls : List (ℕ × ℕ))
    → create_for k size ≡ done (p, calls)
    → (blocks : ℕ) × (calls
        ≡ (k.set_blksize, 1024) ∷ (k.set_size_blocks, blocks) ∷ (k.clear_sock, no_flags) ∷ [])
      × (size ≡ blocks * 1024 + size % 1024)
unfolding create_for create init_device checked_ioctl
create_for-size k size p calls made =
    let log : calls
        ≡ (k.set_blksize, 1024) ∷ (k.set_size_blocks, size / 1024) ∷ (k.clear_sock, no_flags) ∷ [] =
      ground arith in
    (size / 1024, log, omega arith)

-- If one of its requests is refused the device's thread ends the process; otherwise it has made
-- them all, the flags only if there are any.
thread_func_lem :
    (k : Kernel) (file sock : ℕ)
    → ((thread_func k file sock) ≡ fails (exits 255))
      ⊎ ((k.ioctl file k.set_sock sock ≡ 0)
          × (k.ioctl file k.do_it no_flags ≡ 0)
          × (k.ioctl file k.clear_que no_flags ≡ 0)
          × (k.ioctl file k.clear_sock no_flags ≡ 0))
unfolding thread_func serve_device or_exit checked_ioctl set_flags_of
thread_func_lem k file sock = ground arith
