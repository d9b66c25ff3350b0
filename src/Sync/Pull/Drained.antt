-- ===== src/Sync/Pull/Drained.antt =====
-- The loop over the pages in `pullSince` of src/services/sync/engine.ts ends.
use expensesapp.Prelude.{ℕ, zero, suc, ◌<◌, ◌≡◌, refl, ap, Bool, true, false, Option, some, arith}
use expensesapp.Prelude.Text.{Text}
use expensesapp.Sync.Outbox.{Runtime, SyncStore}
use expensesapp.Sync.Pull.Pages.{
  Ending, Outcome, Progress, PullAnswer, PullResponse, PullServer, complete, page, stopped, threw,
  thrown, after_answer, after_page, apply_records, finish_pull, pull_loop, pull_since, syncing,
  advance_to,
}
use expensesapp.Sync.Pull.Write.{Device, Reading}
use expensesapp.Sync.Tables.{SyncDexie}

-- Fewer pages remain after each page that has more, whatever the server does besides.
unfoldable pub IsDraining : (sv : PullServer) → (Option Text → ℕ) → Type 0
IsDraining sv remaining =
    (w w' : sv.World) (cursor : Option Text) (response : PullResponse)
    → sv.pull_records w cursor ≡ (page response, w')
    → response.has_more ≡ true
    → remaining (some response.next_cursor) < remaining cursor

module _ (sx : SyncDexie) {V : Type 0} (rt : Runtime V) (rd : Reading V) (sv : PullServer)
    (now family_id : Text) (remaining : Option Text → ℕ) where
  Loop : ℕ → Progress sx rt rd sv now family_id → sv.World → Outcome sx rt rd sv now family_id
  Loop = pull_loop sx rt rd sv now family_id

  -- The rest of the loop ends from every page from which less than `n` remains.
  EndsBelow : ℕ → Type 0
  EndsBelow n =
      (p : Progress sx rt rd sv now family_id) (w : sv.World)
      → remaining p.0 < n
      → (out : PullAnswer × Progress sx rt rd sv now family_id × sv.World) × (Loop n p w ≡ some out)

  page-ends :
      (n : ℕ) (cursor : Option Text) (response : PullResponse) (w : sv.World)
      (s : Ending × Progress sx rt rd sv now family_id)
      → EndsBelow n
      → (response.has_more ≡ true → remaining (some response.next_cursor) < n)
      → (out : PullAnswer × Progress sx rt rd sv now family_id × sv.World) × (after_page sx rt rd sv
            now family_id response w
            (Loop n)
            s
          ≡ some out)
  unfolding EndsBelow
  page-ends n cursor response w (threw e, p) again less = (_, refl)
  page-ends n cursor response w (stopped, p) again less = (_, refl)
  page-ends n cursor response w (complete, (c, d)) again less = split response.has_more less
    where
      split :
          (more : Bool)
          → (more ≡ true → remaining (some response.next_cursor) < n)
          → (out : PullAnswer × Progress sx rt rd sv now family_id × sv.World) × ((elim more [
            | false ↦
                some (page response, advance_to sx rt rd sv now family_id response.next_cursor d, w)
            | true ↦ Loop n (some response.next_cursor, d) w
          ])
              ≡ some out)
      split false h = (_, refl)
      split true h = again (some response.next_cursor, d) w (h refl)

  loop-EndsBelow : IsDraining sv remaining → (n : ℕ) → EndsBelow n
  unfolding IsDraining EndsBelow Loop pull_loop
  loop-EndsBelow draining zero p w h = absurd (omega arith)
  loop-EndsBelow draining (suc n) p w h =
      answered (sv.pull_records w p.0) refl (loop-EndsBelow draining n)
    where
      answered :
          (a : PullAnswer × sv.World)
          → sv.pull_records w p.0 ≡ a
          → EndsBelow n
          → (out : PullAnswer × Progress sx rt rd sv now family_id × sv.World) × (after_answer sx rt
                rd sv now family_id p
                (Loop n)
                a
              ≡ some out)
      answered (thrown e, w') q again = (_, refl)
      answered (page response, w') q again =
          page-ends n p.0 response w' (apply_records sx rt rd sv now family_id response.records p)
            again (λ more. omega (arith, h, draining w w' p.0 response q more))

  -- Where fewer pages remain on the server after each page that has more, a pull ends, given fuel
  -- for one page more than remain, and however it ends it no longer counts as syncing.
  pub pull_since-terminates :
      (fuel : ℕ) (cursor : Option Text) (d : Device sx) (s : SyncStore) (w : sv.World)
      → IsDraining sv remaining
      → remaining cursor < fuel
      → (answer : PullAnswer) × (d' : Device sx) × (s' : SyncStore) × (w' : sv.World) × (pull_since
            sx rt rd sv now family_id fuel cursor d s w
          ≡ some (answer, d', s', w'))
        × (s'.is_syncing ≡ false)
  unfolding pull_since EndsBelow Loop
  pull_since-terminates fuel cursor d s w draining h =
      let (out, e) = loop-EndsBelow draining fuel (cursor, d) w h in finished out.0 out.1 out.2 e
    where
      finished :
          (answer : PullAnswer) (p : Progress sx rt rd sv now family_id) (w' : sv.World)
          → pull_loop sx rt rd sv now family_id fuel (cursor, d) w ≡ some (answer, p, w')
          → (answer : PullAnswer) × (d' : Device sx) × (s' : SyncStore) × (w' : sv.World)
            × (finish_pull sx rt rd sv now family_id
                  (syncing sx rt rd sv now family_id s)
                  (pull_loop sx rt rd sv now family_id fuel (cursor, d) w)
                ≡ some (answer, d', s', w'))
            × (s'.is_syncing ≡ false)
      finished (page response) (c, d') w' e = (
        _,
        _,
        _,
        _,
        ap (finish_pull sx rt rd sv now family_id (syncing sx rt rd sv now family_id s)) e,
        refl,
      )
      finished (thrown x) (c, d') w' e = (
        _,
        _,
        _,
        _,
        ap (finish_pull sx rt rd sv now family_id (syncing sx rt rd sv now family_id s)) e,
        refl,
      )
