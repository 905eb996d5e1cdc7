-- ===== src/Projects/Uploads/Parts.antt =====
-- The loops over parts in `create_upload_session` and `finalize_upload`
-- (apps/api/app/projects/repository.py): what they leave alone.
use poc_la_graph.Base.{suc, ◌≡◌, refl, List, [], ◌∷◌, ◌++◌, arith, none}
use poc_la_graph.Projects.Rows.{RowId, PartState, UploadPartRow, UploadFileDeclaration, Database}
use poc_la_graph.Projects.Session.{ok, after}
use poc_la_graph.Projects.Uploads.{add_parts}

-- Adding parts never fails and writes no idempotency record.
pub add_parts_frame :
    (sid : RowId) (ds : List UploadFileDeclaration) (db : Database)
    → (add_parts sid ds db ≡ ok (tt, after (add_parts sid ds) db))
      × ((after (add_parts sid ds) db).idempotency ≡ db.idempotency)
      × ((after (add_parts sid ds) db).uploads ≡ db.uploads)
unfolding add_parts
add_parts_frame sid [] db = (refl, refl, refl)
add_parts_frame sid (d ∷ ds) db =
    let part : UploadPartRow = record {
      id = db.next_id;
      session_id = sid;
      logical_filename = d.filename;
      media_type = d.media_type;
      expected_size = d.size;
      expected_sha256 = d.sha256;
      temp_path = none;
      received_size = none;
      state = PartState.pending;
    } in
    let db' : Database = record db { parts = db.parts ++ part ∷ []; next_id = suc db.next_id } in
    ground (arith, add_parts_frame sid ds db')
