-- ===== src/FdManager.antt =====
-- src/FdManager.h and src/FdManager.cpp: what is known of the program's file descriptors. A context is
-- an object with a number, its address, and a shared pointer is such a number. What `fstat` answers is
-- an argument; a file descriptor is a number below 2^31, or -1.
pub mod Lookup
mod Tests
use routn.Base.{
  ℕ, zero, suc, ◌+◌, ◌-◌, ◌*◌, ◌/◌, ◌^◌, Bool, true, false, Option, none, some, List, [], ◌∷◌, ◌++◌,
  length, get_elem?, set, take, replicate, leb, ◌==◌, ◌||◌, if◌then◌else◌,
}

pub record FdCtx : Type 0 where
  pub is_init : Bool
  pub is_socket : Bool
  pub sys_nonblock : Bool
  pub user_nonblock : Bool
  pub is_closed : Bool
  pub fd : ℕ
  pub recv_timeout : ℕ
  pub send_timeout : ℕ

-- `uint64_t(-1)`
abbrev pub no_timeout : ℕ
no_timeout = 2 ^ 64 - 1

-- `fstat` fails, or says whether the descriptor is a socket.
abbrev pub Stat : Type 0
Stat = Option Bool

unfoldable pub init : Stat → FdCtx → FdCtx × Bool
init stat c =
    let found : Bool = elim stat [ none ↦ false | some b ↦ true ] in
    let socket : Bool = elim stat [ none ↦ false | some b ↦ b ] in
    if c.is_init then (c, true) else (
      record c {
        recv_timeout = no_timeout;
        send_timeout = no_timeout;
        is_init = found;
        is_socket = socket;
        sys_nonblock = socket;
        user_nonblock = false;
        is_closed = false;
      },
      found,
    )

unfoldable pub fd_ctx : Stat → ℕ → FdCtx
unfolding init
fd_ctx stat fd =
    (init stat (record {
      is_init = false;
      is_socket = false;
      sys_nonblock = false;
      user_nonblock = false;
      is_closed = false;
      fd = fd;
      recv_timeout = no_timeout;
      send_timeout = no_timeout;
    })).0

-- SO_RCVTIMEO and SO_RCVTIMEO_NEW, and the other types of `setsockopt`.
abbrev pub is_recv : ℕ → Bool
is_recv type = type == 20 || type == 66

unfoldable pub set_timeout : ℕ → ℕ → FdCtx → FdCtx
set_timeout type v c =
    if is_recv type then record c { recv_timeout = v } else record c { send_timeout = v }

unfoldable pub get_timeout : ℕ → FdCtx → ℕ
get_timeout type c = if is_recv type then c.recv_timeout else c.send_timeout

-- `objects` are the contexts that were made, by their addresses.
pub record FdManager : Type 0 where
  pub datas : List (Option ℕ)
  pub objects : List FdCtx

abbrev pub fd_manager : FdManager
fd_manager = record { datas = replicate 64 none; objects = [] }

-- `std::vector::resize`
abbrev pub resize : ℕ → List (Option ℕ) → List (Option ℕ)
resize n xs = if leb n (length xs) then take n xs else xs ++ replicate (n - length xs) none

unfoldable pub room_for : ℕ → List (Option ℕ) → List (Option ℕ)
room_for fd ds = if leb (length ds) fd then resize (fd * 3 / 2) ds else ds

-- `get` from the lock for writing on. `none` is a write past the end of the vector.
unfoldable pub create : Stat → ℕ → FdManager → Option (FdManager × Option ℕ)
create stat fd m = elim (get_elem? (room_for fd m.datas) fd) [
  | none ↦ none
  | some old ↦ some (
    record {
      datas = set (room_for fd m.datas) fd (some (length m.objects));
      objects = m.objects ++ (fd_ctx stat fd ∷ []);
    },
    some (length m.objects),
  )
]

-- What `get` finds under the lock for reading: the result, or that it goes on (`none`).
unfoldable pub find : ℕ → Bool → FdManager → Option (Option ℕ)
find fd auto_create m = elim (get_elem? m.datas fd) [
  | none ↦ if auto_create then none else some none
  | some none ↦ if auto_create then none else some none
  | some (some a) ↦ some (some a)
]

-- The descriptor -1 is `none`.
unfoldable pub get : Stat → Option ℕ → Bool → FdManager → Option (FdManager × Option ℕ)
get stat none auto_create m = some (m, none)
get stat (some fd) auto_create m = elim (find fd auto_create m) [
  | some result ↦ some (m, result)
  | none ↦ create stat fd m
]

unfoldable pub del : ℕ → FdManager → FdManager
del fd m = elim (get_elem? m.datas fd) [
  | none ↦ m
  | some old ↦ record m { datas = set m.datas fd none }
]
