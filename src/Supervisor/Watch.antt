-- ===== src/Supervisor/Watch.antt =====
-- internal/docker/watcher.go and internal/pipeline/watchfile.go: what makes the supervisor look
-- again. A watcher sees a sequence of things, one at each receive of its select.
pub mod Fires
use gobackup_docker.Base.{
  ℕ, Bool, true, false, List, [], ◌∷◌, ◌++◌, ◌*◌, Bytes, codes, str_eq, is_empty, split, join,
  has_prefix, leb, ltb, if◌then◌else◌,
}

-- A message of the event stream, an error of it, the end of the context.
pub data Seen : Type 0 where
  message stream_error cancelled : Seen

-- a call of fire, or a wait before the next subscription, in nanoseconds
pub data Action : Type 0 where
  fire : Action
  wait : ℕ → Action

abbrev pub second : ℕ
second = 1000000000

abbrev pub max_backoff : ℕ
max_backoff = 30000000000

-- the backoff after a wait
abbrev pub grown : ℕ → ℕ
grown backoff = if ltb backoff max_backoff then backoff * 2 else backoff

-- Every subscription resets the backoff to this: Events does not answer an error itself.
abbrev pub subscribed : ℕ → ℕ
subscribed backoff = second

-- pump and, where the stream fails, the rest of the loop: the wait, which the end of the context
-- cuts short, and the next subscription
unfoldable pub pump : ℕ → List Seen → List Action
pump backoff [] = []
pump backoff (cancelled ∷ seen) = []
pump backoff (message ∷ seen) = fire ∷ pump backoff seen
pump backoff (stream_error ∷ cancelled ∷ seen) = wait backoff ∷ []
pump backoff (stream_error ∷ seen) = wait backoff ∷ fire ∷ pump (subscribed (grown backoff)) seen

unfoldable pub watch_events : List Seen → List Action
unfolding pump
watch_events (cancelled ∷ seen) = []
watch_events seen = fire ∷ pump (subscribed second) seen

-- the segments of a path with "." and ".." resolved, the last one first
unfoldable pub push_segment : Bool → List Bytes → Bytes → List Bytes
push_segment rooted stack seg =
    if is_empty seg
    then stack
    else if str_eq seg (codes ".")
    then stack
    else if str_eq seg (codes "..")
    then elim stack [
      | [] ↦ if rooted then [] else seg ∷ []
      | top ∷ below ↦ if str_eq top (codes "..") then seg ∷ top ∷ below else below
    ]
    else seg ∷ stack

unfoldable pub push_segments : Bool → List Bytes → List Bytes → List Bytes
unfolding push_segment
push_segments rooted stack [] = stack
push_segments rooted stack (seg ∷ segs) = push_segments rooted (push_segment rooted stack seg) segs

unfoldable pub in_order : List Bytes → List Bytes
in_order [] = []
in_order (seg ∷ stack) = in_order stack ++ seg ∷ []

-- filepath.Clean on Unix
unfoldable pub clean : Bytes → Bytes
unfolding push_segments in_order split join has_prefix
clean path =
    let rooted = has_prefix path (codes "/") in
    let text = join (in_order (push_segments rooted [] (split path b'/'))) (codes "/") in
    if rooted then b'/' ∷ text else if is_empty text then codes "." else text

-- An event for a file, an error, the end of the context or of a channel.
pub data FileSeen : Type 0 where
  changed : Bytes → FileSeen
  failed ended : FileSeen

-- the loop, with whether each receive calls fire
unfoldable pub watch_target : Bytes → List FileSeen → List Bool
unfolding clean
watch_target target [] = []
watch_target target (ended ∷ seen) = []
watch_target target (failed ∷ seen) = false ∷ watch_target target seen
watch_target target (changed name ∷ seen) = str_eq (clean name) target ∷ watch_target target seen

-- `watching` is whether a watcher could be made and the directory added
unfoldable pub watch_file : Bool → Bytes → List FileSeen → List Bool
unfolding watch_target
watch_file watching path seen = if watching then watch_target (clean path) seen else []
