-- ===== src/Distributed/Master/Stream.antt =====
-- internal/distributed/master.go: the event stream of the dashboard. broadcastState sends a message to
-- every registered channel and drops a channel that is full; handleSSE reads its channel in order.
use perf_loadgen.Base.{
  ℕ, ◌≤◌, ◌≡◌, refl, sym, ap, ◌∙◌, Bool, true, false, List, [], ◌∷◌, ◌++◌, append_assoc, append-nil,
  arith, ltb, ltb→lt, if◌then◌else◌, Bool-cases, ◌⊎◌, inl, inr, length, length-append, Text, map,
}

-- The channel of one client: what it buffers, and what its handler has written to the client after
-- the initial state.
pub record Channel : Type 0 where
  pub registered : Bool
  pub buffer : List Text
  pub written : List Text

abbrev pub capacity : ℕ
capacity = 16

-- A channel as handleSSE makes it.
abbrev pub opened : Channel
opened = record { registered = true; buffer = []; written = [] }

-- One message of `broadcastState`, for one channel.
unfoldable pub offer : Text → Channel → Channel
offer msg ch =
    if ch.registered
    then if ltb (length ch.buffer) capacity
      then record ch { buffer = ch.buffer ++ msg ∷ [] }
      else record ch { registered = false }
    else ch

-- `broadcastState`, for all channels.
unfoldable pub broadcast : Text → List Channel → List Channel
broadcast msg = map (offer msg)

-- One round of the loop of `handleSSE`; it waits while the buffer is empty.
unfoldable pub write_one : Channel → Channel
write_one ch = elim ch.buffer [
  | [] ↦ ch
  | msg ∷ rest ↦ record ch { buffer = rest; written = ch.written ++ msg ∷ [] }
]

-- What happens to one channel.
pub data Event : Type 0 where
  broadcasted : Text → Event
  wrote : Event

unfoldable pub after : Event → Channel → Channel
unfolding offer write_one
after (broadcasted msg) ch = offer msg ch
after wrote ch = write_one ch

unfoldable pub after_all : List Event → Channel → Channel
after_all [] ch = ch
after_all (e ∷ es) ch = after_all es (after e ch)

abbrev pub messages : List Event → List Text
messages [] = []
messages (broadcasted msg ∷ es) = msg ∷ messages es
messages (wrote ∷ es) = messages es

-- Of the messages `sent` so far the client has or will get all, or the first ones if it was dropped.
record Follows (sent : List Text) (ch : Channel) : Type 0 where
  missed : List Text
  prefix_of : ch.written ++ ch.buffer ++ missed ≡ sent
  complete : (ch.registered ≡ true) → missed ≡ []
  small : length ch.buffer ≤ capacity

nothing_missed :
    (sent : List Text) (ch : Channel)
    → Follows sent ch
    → ch.registered ≡ true
    → ch.written ++ ch.buffer ≡ sent
nothing_missed sent ch v on =
    sym (append-nil (ch.written ++ ch.buffer))
    ∙ ap (λ m. ch.written ++ ch.buffer ++ m) (sym (v.complete on))
    ∙ v.prefix_of

offer-Follows :
    (sent : List Text) (msg : Text) (ch : Channel)
    → Follows sent ch
    → Follows (sent ++ msg ∷ []) (offer msg ch)
unfolding offer
offer-Follows sent msg ch v = elim (Bool-cases ch.registered) [
  | inr gone ↦ rw gone (record {
    missed = v.missed ++ msg ∷ [];
    prefix_of =
        sym (append_assoc (ch.written ++ ch.buffer) v.missed (msg ∷ []))
        ∙ ap (λ t. t ++ msg ∷ []) v.prefix_of;
    complete = λ h. cc;
    small = v.small;
  })
  | inl on ↦ elim (Bool-cases (ltb (length ch.buffer) capacity)) [
    | inl room ↦
        rw (on, room)
          (record {
            missed = [];
            prefix_of =
                append-nil (ch.written ++ (ch.buffer ++ msg ∷ []))
                ∙ sym (append_assoc ch.written ch.buffer (msg ∷ []))
                ∙ ap (λ t. t ++ msg ∷ []) (nothing_missed sent ch v on);
            complete = λ h. refl;
            small = omega (
              arith,
              length-append ch.buffer (msg ∷ []),
              ltb→lt (length ch.buffer) capacity room,
            );
          })
    | inr full ↦
        rw (on, full)
          (record {
            missed = msg ∷ [];
            prefix_of = ap (λ t. t ++ msg ∷ []) (nothing_missed sent ch v on);
            complete = λ h. cc;
            small = v.small;
          })
  ]
]

write_one-Follows :
    (sent : List Text) (ch : Channel) → Follows sent ch → Follows sent (write_one ch)
unfolding write_one
write_one-Follows sent ch v =
    elim ch.buffer
        as (λ b.
          Follows sent (record ch { buffer = b })
          → Follows sent (write_one (record ch { buffer = b }))) [
            | [] ↦ λ u. u
            | msg ∷ rest ↦ λ u. record {
              missed = u.missed;
              prefix_of =
                  ap (λ t. t ++ u.missed) (append_assoc ch.written (msg ∷ []) rest) ∙ u.prefix_of;
              complete = u.complete;
              small = omega (arith, u.small);
            }
          ]
      v

after_all-Follows :
    (es : List Event) (sent : List Text) (ch : Channel)
    → Follows sent ch
    → Follows (sent ++ messages es) (after_all es ch)
unfolding after_all after
after_all-Follows [] sent ch v = rw (append-nil sent) v
after_all-Follows (broadcasted msg ∷ es) sent ch v =
    rw (sym (append_assoc sent (msg ∷ []) (messages es)))
      (after_all-Follows es (sent ++ msg ∷ []) (offer msg ch) (offer-Follows sent msg ch v))
after_all-Follows (wrote ∷ es) sent ch v =
    after_all-Follows es sent (write_one ch) (write_one-Follows sent ch v)

opened-Follows : Follows [] opened
opened-Follows = record { missed = []; prefix_of = refl; complete = λ h. refl; small = omega arith }

kept :
    (sent : List Text) (ch : Channel)
    → Follows sent ch
    → (ch.registered ≡ false) ⊎ (ch.written ++ ch.buffer ≡ sent)
kept sent ch v = elim (Bool-cases ch.registered) [
  | inr gone ↦ inl gone
  | inl on ↦ inr (nothing_missed sent ch v on)
]

-- In every interleaving of broadcasts with the writes of its handler, a client of the event stream
-- gets the broadcast messages in order and without a gap: what it was sent and what waits for it
-- are together the first messages, and all of them while its channel is registered. The channel
-- never holds more than its 16 messages.
pub after_all-opened :
    (es : List Event)
    → let ch = after_all es opened in
      ((missed : List Text) × (ch.written ++ ch.buffer ++ missed ≡ messages es))
      × ((ch.registered ≡ false) ⊎ (ch.written ++ ch.buffer ≡ messages es))
      × (length ch.buffer ≤ capacity)
after_all-opened es =
    let ch = after_all es opened in
    let v = after_all-Follows es [] opened opened-Follows in
    ((v.missed, v.prefix_of), kept (messages es) ch v, v.small)
