-- ===== src/Mdns/Poller.antt =====
-- lib/borderrouter/src/agent/mdns_avahi.cpp with lib/borderrouter/src/common/time.hpp: the poller that
-- drives the Avahi client. A watch and a timer are named by a number, their address; what `GetNow`
-- gives is the argument `now`. Callbacks that change the lists while they are walked are left out.
pub mod Timeout
use commissioner.Prelude.{
  ℕ, zero, suc, ◌+◌, ◌-◌, ◌*◌, ◌/◌, ◌%◌, ◌^◌, Bool, true, false, ◌&&◌, ◌||◌, Option, none, some,
  List, [], ◌∷◌, ◌++◌, ltb, leb, ◌==◌, if◌then◌else◌, map, not,
}

-- The events of a watch that the poller knows of.
pub record Events : Type 0 where
  pub readable : Bool
  pub writable : Bool
  pub error : Bool
  pub hang_up : Bool

abbrev pub no_events : Events
no_events = record { readable = false; writable = false; error = false; hang_up = false }

abbrev pub is_some : Events → Bool
is_some e = e.readable || (e.writable || (e.error || e.hang_up))

pub record AvahiWatch : Type 0 where
  pub address : ℕ
  pub fd : ℕ
  pub events : Events
  pub happened : Events

pub record AvahiTimeout : Type 0 where
  pub address : ℕ
  pub timeout : ℕ

pub record Poller : Type 0 where
  pub watches : List AvahiWatch
  pub timers : List AvahiTimeout

pub record Timeval : Type 0 where
  pub tv_sec : ℕ
  pub tv_usec : ℕ

unfoldable pub get_timestamp : Timeval → ℕ
get_timestamp time = (time.tv_sec * 1000 + time.tv_usec / 1000) % 2 ^ 64

-- The time at which a timer is due; 0 is a timer that does not run.
unfoldable pub due_at : ℕ → Option Timeval → ℕ
unfolding get_timestamp
due_at now none = 0
due_at now (some time) = (now + get_timestamp time) % 2 ^ 64

-- `none` is the failed assertion.
unfoldable pub watch_new : ℕ → ℕ → Events → Poller → Option Poller
watch_new address fd events p =
    if is_some events
    then some (record p {
      watches =
          p.watches
          ++ record { address = address; fd = fd; events = events; happened = no_events } ∷ [];
    })
    else none

unfoldable pub watch_update : ℕ → Events → Poller → Poller
watch_update address events p = record p {
  watches = map (λ w. if w.address == address then record w { events = events } else w) p.watches;
}

unfoldable pub erase_watch : ℕ → List AvahiWatch → List AvahiWatch
erase_watch address [] = []
erase_watch address (w ∷ watches) =
    let rest = erase_watch address watches in if w.address == address then watches else w ∷ rest

unfoldable pub watch_free : ℕ → Poller → Poller
unfolding erase_watch
watch_free address p = record p { watches = erase_watch address p.watches }

unfoldable pub timeout_new : ℕ → ℕ → Option Timeval → Poller → Poller
unfolding due_at
timeout_new address now time p = record p {
  timers = p.timers ++ record { address = address; timeout = due_at now time } ∷ [];
}

unfoldable pub timeout_update : ℕ → ℕ → Option Timeval → Poller → Poller
unfolding due_at
timeout_update address now time p = record p {
  timers =
      map (λ t. if t.address == address then record t { timeout = due_at now time } else t)
        p.timers;
}

unfoldable pub erase_timer : ℕ → List AvahiTimeout → List AvahiTimeout
erase_timer address [] = []
erase_timer address (t ∷ timers) =
    let rest = erase_timer address timers in if t.address == address then timers else t ∷ rest

unfoldable pub timeout_free : ℕ → Poller → Poller
unfolding erase_timer
timeout_free address p = record p { timers = erase_timer address p.timers }

-- `timeout - now`, which is unsigned, and whether it is at most 0 as a signed number.
abbrev pub distance : ℕ → ℕ → ℕ
distance timeout now = (timeout + 2 ^ 64 - now) % 2 ^ 64

abbrev pub has_come : ℕ → ℕ → Bool
has_come timeout now = distance timeout now == 0 || leb (2 ^ 63) (distance timeout now)

-- The seconds as an `int`, and then as a `long`: cut to 32 bits, and extended by their sign to 64.
abbrev pub int_of_seconds : ℕ → ℕ
int_of_seconds n =
    let word = n % 2 ^ 32 in if ltb word (2 ^ 31) then word else word + (2 ^ 64 - 2 ^ 32)

-- Less than, for numbers of 64 bits with a sign.
abbrev pub signed_ltb : ℕ → ℕ → Bool
signed_ltb a b = ltb ((a + 2 ^ 63) % 2 ^ 64) ((b + 2 ^ 63) % 2 ^ 64)

-- The comparisons with one timer that is to come; `usec` is below 1000000.
unfoldable pub shorten : ℕ → Timeval → Timeval
shorten distance' tv =
    let sec = int_of_seconds (distance' / 1000) in
    let usec = distance' % 1000 * 1000 in
    if signed_ltb sec tv.tv_sec
    then record tv { tv_sec = sec }
    else if sec == tv.tv_sec
    then (if ltb usec tv.tv_usec then record tv { tv_usec = usec } else tv)
    else tv

-- The loop over the timers, which the first one that is due leaves.
unfoldable pub update_timeout : ℕ → List AvahiTimeout → Timeval → Timeval
unfolding shorten
update_timeout now [] tv = tv
update_timeout now (t ∷ timers) tv =
    let tv' = if t.timeout == 0 then tv else shorten (distance t.timeout now) tv in
    let rest = update_timeout now timers tv' in
    if not (t.timeout == 0) && has_come t.timeout now
    then record { tv_sec = 0; tv_usec = 0 }
    else rest

-- The three sets and the greatest descriptor, `none` for the -1 before there is one.
pub record FdSets : Type 0 where
  pub read_fds : List ℕ
  pub write_fds : List ℕ
  pub error_fds : List ℕ
  pub max_fd : Option ℕ

abbrev pub add_if : Bool → ℕ → List ℕ → List ℕ
add_if true fd fds = fd ∷ fds
add_if false fd fds = fds

abbrev pub greater : ℕ → Option ℕ → Option ℕ
greater fd none = some fd
greater fd (some m) = if ltb m fd then some fd else some m

unfoldable pub add_watches : List AvahiWatch → FdSets → FdSets
add_watches [] sets = sets
add_watches (w ∷ watches) sets = add_watches watches (record {
  read_fds = add_if w.events.readable w.fd sets.read_fds;
  write_fds = add_if w.events.writable w.fd sets.write_fds;
  error_fds = add_if w.events.error w.fd sets.error_fds;
  max_fd = greater w.fd sets.max_fd;
})

unfoldable pub update_fd_set : ℕ → FdSets → Timeval → Poller → Poller × FdSets × Timeval
unfolding add_watches update_timeout
update_fd_set now sets tv p = (
  record p { watches = map {A = AvahiWatch} (λ w. record w { happened = no_events }) p.watches },
  add_watches p.watches sets,
  update_timeout now p.timers tv,
)

abbrev pub member : ℕ → List ℕ → Bool
member fd [] = false
member fd (x ∷ fds) = if fd == x then true else member fd fds

unfoldable pub ready_watch : FdSets → AvahiWatch → AvahiWatch
ready_watch sets w = record w {
  happened = record {
    readable = w.events.readable && member w.fd sets.read_fds;
    writable = w.events.writable && member w.fd sets.write_fds;
    error = w.events.error && member w.fd sets.error_fds;
    hang_up = false;
  };
}

unfoldable pub fired : List AvahiWatch → List AvahiWatch
fired [] = []
fired (w ∷ watches) = let rest = fired watches in if is_some w.happened then w ∷ rest else rest

unfoldable pub expired : ℕ → List AvahiTimeout → List AvahiTimeout
expired now [] = []
expired now (t ∷ timers) =
    let rest = expired now timers in
    if t.timeout == 0 then rest else if has_come t.timeout now then t ∷ rest else rest

-- `Process`: the watches and the timers whose callbacks are called, in their order.
unfoldable pub process : ℕ → FdSets → Poller → Poller × List AvahiWatch × List AvahiTimeout
unfolding ready_watch fired expired
process now sets p =
    let watches = map (ready_watch sets) p.watches in
    (record p { watches = watches }, fired watches, expired now p.timers)
