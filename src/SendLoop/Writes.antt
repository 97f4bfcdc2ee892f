-- ===== src/SendLoop/Writes.antt =====
-- The writes of send_loop() (src/session.cpp) to the connection: the bytes of those that succeeded, and
-- of those that failed.
use nghttp2_corosio.Base.{
  ◌≡◌, refl, sym, ap, ◌∙◌, ◌⊎◌, inl, inr, Option, none, some, List, [], ◌∷◌, ◌++◌, append_assoc,
  append-nil, Bytes,
}
use nghttp2_corosio.Capy.{ErrorCode}
use nghttp2_corosio.SendLoop.{running, failed, Write, ended_by}

-- What a write was made with.
abbrev bytes_of : Write → Bytes
bytes_of w = w.collected ++ w.fresh

-- Of the bytes of a write, those of one that succeeded, and those of one that failed.
abbrev pub if_sent : Option ErrorCode → Bytes → Bytes
if_sent none bytes = bytes
if_sent (some e) bytes = []

abbrev pub if_lost : Option ErrorCode → Bytes → Bytes
if_lost none bytes = []
if_lost (some e) bytes = bytes

abbrev pub sent : List Write → Bytes
sent [] = []
sent (w ∷ ws) = if_sent w.error (bytes_of w) ++ sent ws

abbrev pub lost : List Write → Bytes
lost [] = []
lost (w ∷ ws) = if_lost w.error (bytes_of w) ++ lost ws

sent-append :
    (ws : List Write) (w : Write) → sent (ws ++ w ∷ []) ≡ sent ws ++ if_sent w.error (bytes_of w)
sent-append [] w = append-nil _
sent-append (v ∷ ws) w =
    rw (sent-append ws w) (sym (append_assoc (if_sent v.error (bytes_of v)) (sent ws) _))

lost-append :
    (ws : List Write) (w : Write) → lost (ws ++ w ∷ []) ≡ lost ws ++ if_lost w.error (bytes_of w)
lost-append [] w = append-nil _
lost-append (v ∷ ws) w =
    rw (lost-append ws w) (sym (append_assoc (if_lost v.error (bytes_of v)) (lost ws) _))

-- A write after writes that succeeded.
split_bytes :
    (e : Option ErrorCode) (bytes : Bytes)
    → (if_sent e bytes ++ if_lost e bytes ≡ bytes)
      × ((ended_by e running ≡ failed) ⊎ (if_lost e bytes ≡ []))
split_bytes none bytes = (append-nil bytes, inr refl)
split_bytes (some e) bytes = (refl, inl refl)

pub pieces :
    (ws : List Write) (w : Write)
    → lost ws ≡ []
    → (sent (ws ++ w ∷ []) ++ lost (ws ++ w ∷ []) ≡ sent ws ++ bytes_of w)
      × ((ended_by w.error running ≡ failed) ⊎ (lost (ws ++ w ∷ []) ≡ []))
pieces ws w h =
    let (all, why) = split_bytes w.error (bytes_of w) in
    (
      rw (sent-append ws w, lost-append ws w, h)
          (append_assoc (sent ws) (if_sent w.error (bytes_of w)) (if_lost w.error (bytes_of w))
            ∙ ap (λ l. sent ws ++ l) all),
      elim why [
        | inl e ↦ inl e
        | inr e ↦ inr (lost-append ws w ∙ ap (λ l. l ++ if_lost w.error (bytes_of w)) h ∙ e)
      ],
    )
