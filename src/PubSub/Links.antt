-- ===== src/PubSub/Links.antt =====
-- A publisher and a subscriber over time, every interleaving of publications with the steps of the
-- subscriber's turns, and what is kept of them.
use coin_data.Prelude.{
  ℕ, suc, ◌+◌, ◌≤◌, ◌<◌, max, ◌≡◌, ◌≢◌, List, [], ◌∷◌, ◌++◌, Option, none, some, Result, ok, length,
  get_elem?, ◌>>=◌, if◌then◌else◌, ltb,
}
use coin_data.CircularBuffer.History.{Holds}
use coin_data.PubSub.{
  Item, Subscriber, Phase, testing, moving, comparing, invoking, calling, publish, serve,
}

-- No null pointer is published.
abbrev pub NonNull : List ℕ → Type 0
NonNull xs = (i v : ℕ) → get_elem? xs i ≡ some v → v ≢ 0

-- A link over time: its ends, where the subscriber's turn is, and the values of the callbacks, first
-- to last.
pub record Link : Type 0 where
  pub item : Item
  pub subscriber : Subscriber
  pub phase : Phase
  pub calls : List ℕ

pub data Event : Type 0 where
  publishes : ℕ → Event
  -- one step of the subscriber's turn
  acts : Event

abbrev pub note : Option ℕ → List ℕ → List ℕ
note none calls = calls
note (some v) calls = calls ++ v ∷ []

unfoldable pub step : Link → Event → Result Link
step k (publishes v) = do item ← publish k.item v; ok (record k { item = item })
step k acts = serve k.phase k.item k.subscriber >>= λ (f, s, c).
    ok (record k { subscriber = s; phase = f; calls = note c k.calls })

unfoldable pub run : Link → List Event → Result Link
unfolding step
run k [] = ok k
run k (e ∷ es) = step k e >>= λ k'. run k' es

abbrev pub published : List Event → List ℕ
published [] = []
published (publishes v ∷ es) = v ∷ published es
published (acts ∷ es) = published es

-- `calls` are values of `xs` at positions that never go down, from `start` on. The next one is at
-- `stop` or later. The position of each is passed, but for the overruns, which are counted.
pub data Picks (xs : List ℕ) (start : ℕ) : ℕ → ℕ → List ℕ → Type 0 where
  begin : Picks xs start 0 start []
  skip : {r i j : ℕ} {calls : List ℕ} → Picks xs start r i calls → i ≤ j → Picks xs start r j calls
  take :
      {r i j v : ℕ} {calls : List ℕ}
      → Picks xs start r i calls
      → get_elem? xs i ≡ some v
      → j ≡ i + 1
      → Picks xs start r j (calls ++ v ∷ [])
  overrun :
      {r i v : ℕ} {calls : List ℕ}
      → Picks xs start r i calls
      → get_elem? xs i ≡ some v
      → Picks xs start (suc r) i (calls ++ v ∷ [])

-- Whether an element that the subscriber is about to read was overwritten after it looked at the
-- head
abbrev pub overtaken : Phase → Item → Subscriber → ℕ
overtaken testing item s = 0
overtaken moving item s = 0
overtaken comparing item s = if ltb s.idx item.buffer.head then 1 else 0
overtaken invoking item s = if ltb s.idx item.buffer.head then 1 else 0
overtaken calling item s = 0

-- What the subscriber holds for the callback in a phase
abbrev pub Queued : Phase → List ℕ → Type 0
Queued testing queue = queue ≡ []
Queued moving queue = queue ≡ []
Queued comparing queue = queue ≡ []
Queued invoking queue = queue ≡ []
Queued calling queue = length queue ≤ 1

-- The shared buffer holds the end of a history without null, two of it or more; the subscriber's
-- own queue has room for one and fits the phase, and there is something to read when it reads.
pub record Linked (item : Item) (s : Subscriber) (f : Phase) (xs : List ℕ) : Type 0 where
  pub held : Holds item.buffer xs
  pub roomy : 2 ≤ item.buffer.total_size
  pub non_null : NonNull xs
  pub queue : 1 ≤ s.buffer_size
  pub queued : Queued f s.buffer
  pub ready : f ≡ invoking → s.idx < length xs

-- Where a link stands after `n` publications: the history, and which of its values were delivered
-- or are about to be, with no more overruns than publications.
pub record Delivers (start n : ℕ) (xs : List ℕ) (k : Link) : Type 0 where
  pub linked : Linked k.item k.subscriber k.phase xs
  pub overruns : ℕ
  pub stop : ℕ
  pub picks : Picks xs start overruns stop (k.calls ++ k.subscriber.buffer)
  pub behind : stop ≤ max k.subscriber.idx k.item.buffer.head
  pub lost : k.phase ≡ moving → k.subscriber.idx < k.item.buffer.head
  pub rare : overruns + overtaken k.phase k.item k.subscriber ≤ n
