-- ===== src/Sdk/Drain/Batches.antt =====
-- Messages in groups, a frame for each.
use zenoh_ros2_nostd.Common.{
  ℕ, ◌+◌, ◌%◌, ◌≡◌, refl, ap, sym, ◌∙◌, append-nil, append_assoc, List, [], ◌∷◌, ◌++◌, true,
}
use zenoh_ros2_nostd.Transport.Frame.RoundTrip.{frame_image}
use zenoh_ros2_nostd.Transport.Vbyte.{u64_size}
use zenoh_ros2_nostd.Transport.Protocol.{ZenohId}
use zenoh_ros2_nostd.Transport.Codec.Header.RoundTrip.{frame_header_image}
use zenoh_ros2_nostd.Ros2.Publisher.{Drained}
use zenoh_ros2_nostd.Ros2.Publisher.Pending.{shortened}
use zenoh_ros2_nostd.Sdk.Drain.Steps.{image}

-- The messages as they are sent: cut at 512 bytes.
abbrev pub shorts : List Drained → List Drained
shorts [] = []
shorts (m ∷ ms) = shortened 512 m ∷ shorts ms

abbrev pub concat {ℓ} : {A : Type ℓ} → List (List A) → List A
concat [] = []
concat (xs ∷ rest) = xs ++ concat rest

abbrev pub framed : List (List ℕ) → List ℕ
framed [] = []
framed (b ∷ rest) = frame_image b ++ framed rest

module _ (ke : List ℕ) (gid : ZenohId) where
  abbrev pub images : List Drained → List ℕ
  images [] = []
  images (m ∷ ms) = image ke gid m ++ images ms

  -- One frame with a group of messages, and frames with numbers in a row.
  abbrev pub batch_image : ℕ → List Drained → List ℕ
  batch_image sn group = frame_header_image sn true ++ images group

  abbrev pub batches : ℕ → List (List Drained) → List (List ℕ)
  batches sn [] = []
  batches sn (g ∷ gs) = batch_image sn g ∷ batches ((sn + 1) % u64_size) gs

  pub images-append : (xs ys : List Drained) → images (xs ++ ys) ≡ images xs ++ images ys
  images-append [] ys = refl
  images-append (m ∷ ms) ys =
      ap (◌++◌ (image ke gid m)) (images-append ms ys)
      ∙ sym (append_assoc (image ke gid m) (images ms) (images ys))

  pub batch_image-append :
      (sn : ℕ) (cur : List Drained) (m : Drained)
      → batch_image sn cur ++ image ke gid m ≡ batch_image sn (cur ++ (m ∷ []))
  batch_image-append sn cur m =
      append_assoc (frame_header_image sn true) (images cur) (image ke gid m)
      ∙ ap (◌++◌ (frame_header_image sn true)) (
          ap (◌++◌ (images cur)) (sym (append-nil (image ke gid m)))
          ∙ sym (images-append cur (m ∷ [])))
