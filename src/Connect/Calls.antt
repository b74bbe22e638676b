-- ===== src/Connect/Calls.antt =====
-- The calls of the system that concern file descriptors, and those that they leave open.
use androix_xcb_libxcb.Base.{ℕ, List, [], ◌∷◌, ◌++◌, ◌==◌, if◌then◌else◌, ◌≡◌, refl}

-- What happens to a file descriptor: socket has given it, close-on-exec or an option is set, connect is
-- called on it, shutdown or close is.
pub data Call : Type 0 where
  opened cloexec no_delay keep_alive connecting shut closed : ℕ → Call

abbrev pub close_one : ℕ → List ℕ → List ℕ
close_one fd [] = []
close_one fd (x ∷ xs) = let rest = close_one fd xs in if x == fd then rest else x ∷ rest

abbrev pub one_call : Call → List ℕ → List ℕ
one_call (opened fd) fds = fd ∷ fds
one_call (closed fd) fds = close_one fd fds
one_call (cloexec fd) fds = fds
one_call (no_delay fd) fds = fds
one_call (keep_alive fd) fds = fds
one_call (connecting fd) fds = fds
one_call (shut fd) fds = fds

-- The file descriptors open after the calls, the latest first.
abbrev pub still_open : List Call → List ℕ → List ℕ
still_open [] fds = fds
still_open (c ∷ cs) fds = still_open cs (one_call c fds)

pub still_open-append :
    (a b : List Call) (fds : List ℕ) → still_open (a ++ b) fds ≡ still_open b (still_open a fds)
still_open-append [] b fds = refl
still_open-append (c ∷ a) b fds = still_open-append a b (one_call c fds)
