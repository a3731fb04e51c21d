-- ===== src/Wire/Answers.antt =====
-- The client reads what the server answers.
use la_liga_de_la_justicia.Base.{
  append_nil, ℕ, ◌+◌, ◌^◌, ◌<◌, ◌≡◌, refl, sym, ap, ◌∙◌, [], ◌++◌, drop, length-append, arith,
  subst,
}
use la_liga_de_la_justicia.Wire.Bytes.{le, read, length-le, read-le, drop-le}
use la_liga_de_la_justicia.Wire.Messages.{Widths, deserializar_header}
use la_liga_de_la_justicia.Wire.Replies.{
  Atributos, serializar_respuesta_obtener_atributos, deserializar_respuesta_obtener_atributos,
}
use la_liga_de_la_justicia.Wire.Frames.{response-IsReceived}

module _ (w : Widths) where
  -- The attributes arrive as they were sent, where `size_t` and `off_t` have the same width.
  pub respuesta_obtener_atributos_roundtrip :
      (tipo : ℕ) (a : Atributos)
      → tipo < 256
      → w.size_t ≡ w.off_t
      → w.ino_t + w.mode_t + w.nlink_t + w.off_t + w.blksize_t + w.blkcnt_t < 65536
      → a.numero_de_inodo < 256 ^ w.ino_t
      → a.modo_de_inodo < 256 ^ w.mode_t
      → a.numero_de_hard_links < 256 ^ w.nlink_t
      → a.size < 256 ^ w.size_t
      → a.tamano_de_bloque < 256 ^ w.blksize_t
      → a.bloques_de_512b < 256 ^ w.blkcnt_t
      → let s = serializar_respuesta_obtener_atributos w tipo a in
        (s.beyond ≡ 0)
        × ((deserializar_header s.bytes).tipo ≡ tipo)
        × (deserializar_respuesta_obtener_atributos w (drop 3 s.bytes) ≡ a)
  unfolding serializar_respuesta_obtener_atributos deserializar_respuesta_obtener_atributos
  respuesta_obtener_atributos_roundtrip tipo a h same total k1 k2 k3 k4 k5 k6 =
      let last = le w.blkcnt_t a.bloques_de_512b in
      let t5 = le w.blksize_t a.tamano_de_bloque ++ last in
      let t4 = le w.size_t a.size ++ t5 in
      let t3 = le w.nlink_t a.numero_de_hard_links ++ t4 in
      let t2 = le w.mode_t a.modo_de_inodo ++ t3 in
      let body = le w.ino_t a.numero_de_inodo ++ t2 in
      let e1 = length-append (le w.ino_t a.numero_de_inodo) t2 in
      let e2 = length-append (le w.mode_t a.modo_de_inodo) t3 in
      let e3 = length-append (le w.nlink_t a.numero_de_hard_links) t4 in
      let e4 = length-append (le w.size_t a.size) t5 in
      let e5 = length-append (le w.blksize_t a.tamano_de_bloque) last in
      let l1 = length-le w.ino_t a.numero_de_inodo in
      let l2 = length-le w.mode_t a.modo_de_inodo in
      let l3 = length-le w.nlink_t a.numero_de_hard_links in
      let l4 = length-le w.size_t a.size in
      let l5 = length-le w.blksize_t a.tamano_de_bloque in
      let l6 = length-le w.blkcnt_t a.bloques_de_512b in
      let (b, r) =
        response-IsReceived tipo
          (w.ino_t + w.mode_t + w.nlink_t + w.off_t + w.blksize_t + w.blkcnt_t) body h total
          (omega (arith, e1, e2, e3, e4, e5, l1, l2, l3, l4, l5, l6, same)) in
      let d4 : drop w.off_t t4 ≡ t5 =
        subst (λ n. drop n t4 ≡ t5) same (drop-le w.size_t a.size t5) in
      let r4 : read w.off_t t4 ≡ a.size =
        subst (λ n. read n t4 ≡ a.size) same (read-le w.size_t a.size t5 k4) in
      (
        b,
        ap (λ x. x.tipo) r.header,
        rw
            (
              r.body,
              drop-le w.ino_t a.numero_de_inodo t2,
              drop-le w.mode_t a.modo_de_inodo t3,
              drop-le w.nlink_t a.numero_de_hard_links t4,
              d4,
              r4,
              drop-le w.blksize_t a.tamano_de_bloque last,
              read-le w.ino_t a.numero_de_inodo t2 k1,
              read-le w.mode_t a.modo_de_inodo t3 k2,
              read-le w.nlink_t a.numero_de_hard_links t4 k3,
              read-le w.blksize_t a.tamano_de_bloque last k5,
              read_last a.bloques_de_512b k6,
            )
            refl,
      )
    where
      read_last : (v : ℕ) → v < 256 ^ w.blkcnt_t → read w.blkcnt_t (le w.blkcnt_t v) ≡ v
      read_last v h =
          ap (read w.blkcnt_t) (sym (append_nil (le w.blkcnt_t v))) ∙ read-le w.blkcnt_t v [] h
