-- ===== src/Backend/App/Tests.antt =====
-- The routes on the small database of the upload's tests.
use myaqi_iot_platform.Prelude.{ℕ}
use myaqi_iot_platform.Prelude.Int.{pos}
use myaqi_iot_platform.Python.Text.{Text, codes}
use myaqi_iot_platform.Backend.Ingestion.Tests.{config, request, empty_db, metrics}
use myaqi_iot_platform.Backend.App.{at_commit, upload}
use myaqi_iot_platform.Backend.App.Answers.{UploadAnswer, upload-UploadAnswer}

abbrev uuid_text : ℕ → Text
uuid_text n = codes "00000000"

upload-UploadAnswer_example : UploadAnswer config uuid_text (pos 1100) 50 request empty_db (
    upload config uuid_text
      (codes "detail")
      (codes "request-1")
      at_commit
      (pos 1100)
      50
      request
      empty_db
      metrics)
upload-UploadAnswer_example =
    upload-UploadAnswer config uuid_text (codes "detail") (codes "request-1") (pos 1100) 50 request
      empty_db metrics tt at_commit
