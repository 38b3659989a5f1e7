-- ===== src/Frontend.antt =====
-- The two Triton Python backends: model_repo/tts_frontend/1/model.py and
-- model_repo/vits_frontend/1/model.py.
pub mod Text
pub mod Latents
